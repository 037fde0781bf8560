-- ===== src/Credentials/Tests.antt =====
-- Credentials under a cipher that only tags its text.
use connect_manager.Prelude.{◌≡◌, [], none, some, arith}
use connect_manager.Db.Table.{err, multiple_results, count}
use connect_manager.Credentials.Tagging.{tagging}
use connect_manager.Credentials.Datastores.{
  DatastoreTable, Entry, list_for_user, save_datastore_credentials, get_datastore_credentials,
}
use connect_manager.Credentials.Datastores.Saved.{
  Returned, get-save_datastore_credentials, get-save_twice_anonymous,
}

abbrev entry : Entry
entry = record {
  datastore_name = "store";
  filespace_id = "fs";
  filespace_name = "files";
  bucket_name = "b";
  region = none;
  endpoint = none;
}

abbrev no_datastores : DatastoreTable
no_datastores = record { rows = []; next_id = 1 }

get-save_datastore_credentials_example :
    Returned "ds" (some 7) entry "key" "secret" (
      get_datastore_credentials tagging "ds"
        (some 7)
        (save_datastore_credentials tagging 5 0 "ds" entry "key" "secret" (some 7) no_datastores).0)
    × (list_for_user none
          (save_datastore_credentials tagging 5 0 "ds" entry "key" "secret"
            (some 7)
            no_datastores).0
        ≡ list_for_user none no_datastores)
unfolding count
get-save_datastore_credentials_example =
    get-save_datastore_credentials tagging 5 0 "ds" entry "key" "secret" 7 none no_datastores
      (omega arith) (ground arith)

get-save_twice_anonymous_example :
    get_datastore_credentials tagging "ds" none
      (save_datastore_credentials tagging 6 1 "ds" entry "new key" "new secret" none
        (save_datastore_credentials tagging 5 0 "ds" entry "key" "secret" none no_datastores).0).0
    ≡ err multiple_results
get-save_twice_anonymous_example =
    get-save_twice_anonymous tagging 5 6 0 1 "ds" entry entry "key" "secret" "new key" "new secret"
      no_datastores
