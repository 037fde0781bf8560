-- ===== src/JobQueue/Tests.antt =====
-- One pending job of a user.
use connect_manager.Prelude.{◌+◌, ◌≤◌, ◌≡◌, refl, false, some}
use connect_manager.Db.Table.{ok, count, select}
use connect_manager.Db.Order.{order_by_desc}
use connect_manager.Jobs.{JobTable, empty_jobs, list_for_user, create_job}
use connect_manager.JobQueue.{
  JobQueue, QueueStatus, new_queue, set_sessionmaker, is_pending, is_running, begin,
  get_queue_status,
}
use connect_manager.JobQueue.Status.{jobs_of, get_queue_status-bounds}

abbrev jobs : JobTable
jobs = (create_job 5 (some 7) "b" "p" "fs" "ds" empty_jobs).0

abbrev queue : JobQueue
queue = set_sessionmaker new_queue

abbrev status : QueueStatus
status = record { pending = 1; running = 0; connected = false }

counted : get_queue_status (λ s. some 7) (some "u") queue jobs ≡ ok status
unfolding get_queue_status create_job list_for_user order_by_desc select count
counted = refl

get_queue_status-bounds_example :
    (1 + 0 ≤ 100)
    × (1 ≤ count is_pending (jobs_of (some 7) jobs))
    × (0 ≤ count is_running (jobs_of (some 7) jobs))
get_queue_status-bounds_example =
    get_queue_status-bounds (λ s. some 7) (some "u") (some 7) queue jobs status
      (unfold begin in refl) counted
