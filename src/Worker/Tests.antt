-- ===== src/Worker/Tests.antt =====
-- A small service, and jobs that run on it.
use connect_manager.Prelude.{
  ℕ, ◌+◌, ◌≡◌, refl, true, [], ◌∷◌, none, some, str_eq, ◌==◌, if◌then◌else◌,
}
use connect_manager.Db.Rows.{Job, pending}
use connect_manager.Db.Table.{ok}
use connect_manager.Db.Repository
use connect_manager.Jobs.{JobTable, cancel, cancel_job, get_job}
use connect_manager.Worker.{
  answer, Services, no_progress, DatastoreKeys, advance, import_batches, import_job, import_keys,
  create_dirs, sorted_dirs, set_up,
}
use connect_manager.Worker.Cancel.{cancel_lost_in_batch, cancel_seen_at_check}
use connect_manager.Worker.Outcome.{Accounts, import_keys-Accounts}
use connect_manager.Worker.Quiet.{imports, quiet, Finished, import_job-Finished}
use connect_manager.Worker.Trace.{recording}

abbrev keys : DatastoreKeys
keys = record { access_key = "k"; secret_key = "s"; endpoint = none; region = none }

-- A remote that counts its calls and refuses the file "bad".
abbrev demo : Services ℕ
demo = record {
  load_ll_token = λ u. ok (if u == 7 then some "token" else none);
  legacy_token = λ u. none;
  get_datastore_credentials = λ d u. ok (some keys);
  get_api_host = λ u. ok none;
  configure = λ t f d h n. n;
  list_all_objects = λ ds b p. ok ("p/a" ∷ "bad" ∷ "p/c" ∷ []);
  ensure_structure = λ path n. ((true, ""), n);
  import_file = λ key path n. (if str_eq key "bad" then answer 500 "no" else answer 201 "", n + 1);
  describe = λ e. "error";
}

abbrev job : Job
job = record {
  id = 1;
  status = pending;
  bucket = "b";
  prefix = "p/";
  filespace_id = "fs";
  datastore_id = "ds";
  total_files = 0;
  completed_files = 0;
  failed_files = 0;
  error_message = none;
  created_at = 5;
  started_at = none;
  completed_at = none;
  user_id = some 7;
}

abbrev table : JobTable
table = record { rows = job ∷ []; next_id = 2 }

found : get_job 1 table ≡ some job
unfolding get_job Repository.get
found = refl

import_keys-Accounts_example : Accounts demo 1 "b" ("p/a" ∷ "bad" ∷ []) [] (
    import_keys
      (recording demo)
      1
      "b"
      ("p/a" ∷ "bad" ∷ [])
      (record { jobs = table; others = [] ∷ (cancel 1 (some 7) ∷ []) ∷ []; remote = (0, []) }))
import_keys-Accounts_example =
    import_keys-Accounts demo 1 "b" ("p/a" ∷ "bad" ∷ [])
      (record { jobs = table; others = [] ∷ (cancel 1 (some 7) ∷ []) ∷ []; remote = (0, []) })

demo-set_up : set_up demo job ≡ ok (record { token = "token"; api_host = ""; datastore = keys })
unfolding set_up
demo-set_up = refl

import_job-Finished_example :
    Finished {X = ℕ} 1 3
      (imports demo "b"
        ("p/a" ∷ "bad" ∷ "p/c" ∷ [])
        (create_dirs demo (sorted_dirs "b" ("p/a" ∷ "bad" ∷ "p/c" ∷ [])) 0))
      (import_job demo 1 (quiet table 0))
import_job-Finished_example =
    import_job-Finished demo 1 table 0 job found
      (record { token = "token"; api_host = ""; datastore = keys }) "p/a" ("bad" ∷ "p/c" ∷ [])
      demo-set_up refl refl refl

abbrev other_job : Job
other_job = record job { user_id = some 9 }

abbrev other_table : JobTable
other_table = record { rows = other_job ∷ []; next_id = 2 }

cancel_lost_in_batch_example :
    advance demo 1 "b"
      ("p/a" ∷ [])
      no_progress
      (record { jobs = table; others = (cancel 1 (some 7) ∷ []) ∷ []; remote = 0 })
    ≡ advance demo 1 "b"
        ("p/a" ∷ [])
        no_progress
        (record { jobs = table; others = [] ∷ []; remote = 0 })
cancel_lost_in_batch_example =
    cancel_lost_in_batch demo 1 (some 7) table [] 0 "b" ("p/a" ∷ []) no_progress

cancel_seen_at_check_example :
    import_batches demo 1 1 "b"
      ("p/a" ∷ [])
      no_progress
      (record { jobs = table; others = (cancel 1 (some 7) ∷ []) ∷ []; remote = 0 })
    ≡ (no_progress, record { jobs = (cancel_job 1 (some 7) table).0; others = []; remote = 0 })
cancel_seen_at_check_example =
    cancel_seen_at_check demo 1 (some 7) table [] 0 0 "b" "p/a" [] no_progress job found refl
