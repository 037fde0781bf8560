-- ===== src/Processed/Tests.antt =====
-- Deliveries of two tasks, one of which raises, with redeliveries.
use connect_manager.Prelude.{
  ℕ, ◌+◌, ◌≡◌, refl, String, List, [], ◌∷◌, none, some, All, arith, eq_iff, str_eq, if◌then◌else◌,
  ◌≢◌,
}
use connect_manager.Db.Table.{Result, ok, err, key_error}
use connect_manager.Processed.{idempotent, mark_processed}
use connect_manager.Processed.AtMostOnce.{
  Task, deliver_all, unclaimed, first_occurrences, HasNoDuplicates, runs_once,
}

abbrev task : String → Task
task id = record { id = id; hostname = none; pod_name = some "pod"; now = 0 }

-- Task "b" raises; the state counts the runs.
abbrev body : String → ℕ → Result ℕ × ℕ
body id n = if str_eq id "b" then (err key_error, n + 1) else (ok n, n + 1)

abbrev tasks : List Task
tasks = task "a" ∷ task "b" ∷ task "b" ∷ task "a" ∷ []

named : All (λ (t : Task). t.id ≢ "") tasks
named = (not_a, (not_b, (not_b, (not_a, tt))))
  where
    not_a : ◌≢◌ {A = String} "a" ""
    not_a = ground (arith, eq_iff "a" "")

    not_b : ◌≢◌ {A = String} "b" ""
    not_b = ground (arith, eq_iff "b" "")

runs_once_example :
    ((deliver_all body tasks (unclaimed body 0)).inner.1
      ≡ first_occurrences [] ("a" ∷ "b" ∷ "b" ∷ "a" ∷ []))
    × HasNoDuplicates (deliver_all body tasks (unclaimed body 0)).inner.1
runs_once_example = runs_once body tasks 0 named

runs_twice_in_all : (deliver_all body tasks (unclaimed body 0)).inner ≡ (2, "a" ∷ "b" ∷ [])
unfolding deliver_all idempotent mark_processed
runs_twice_in_all = refl
