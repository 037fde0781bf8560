-- ===== src/Jobs/Validity/Fields.antt =====
-- What the keyword fields of `update_status` leave alone, and those that the program gives.
use connect_manager.Prelude.{◌≡◌, refl, List, [], ◌∷◌}
use connect_manager.Db.Rows.{Job}
use connect_manager.Jobs.{
  Field, total_files, completed_files, failed_files, error_message, set_fields, set_bucket,
  set_prefix, set_filespace_id, set_datastore_id, set_created_at, set_started_at, set_completed_at,
  set_user_id, Keyword, given_total, given_completed, given_failed, given_error, fields_of,
}

pub id-set_fields : (fs : List Field) (j : Job) → (set_fields fs j).id ≡ j.id
unfolding set_fields
id-set_fields [] j = refl
id-set_fields (total_files n ∷ fs) j = id-set_fields fs _
id-set_fields (completed_files n ∷ fs) j = id-set_fields fs _
id-set_fields (failed_files n ∷ fs) j = id-set_fields fs _
id-set_fields (error_message s ∷ fs) j = id-set_fields fs _
id-set_fields (set_bucket v ∷ fs) j = id-set_fields fs _
id-set_fields (set_prefix v ∷ fs) j = id-set_fields fs _
id-set_fields (set_filespace_id v ∷ fs) j = id-set_fields fs _
id-set_fields (set_datastore_id v ∷ fs) j = id-set_fields fs _
id-set_fields (set_created_at v ∷ fs) j = id-set_fields fs _
id-set_fields (set_started_at v ∷ fs) j = id-set_fields fs _
id-set_fields (set_completed_at v ∷ fs) j = id-set_fields fs _
id-set_fields (set_user_id v ∷ fs) j = id-set_fields fs _

pub status-set_fields : (fs : List Field) (j : Job) → (set_fields fs j).status ≡ j.status
unfolding set_fields
status-set_fields [] j = refl
status-set_fields (total_files n ∷ fs) j = status-set_fields fs _
status-set_fields (completed_files n ∷ fs) j = status-set_fields fs _
status-set_fields (failed_files n ∷ fs) j = status-set_fields fs _
status-set_fields (error_message s ∷ fs) j = status-set_fields fs _
status-set_fields (set_bucket v ∷ fs) j = status-set_fields fs _
status-set_fields (set_prefix v ∷ fs) j = status-set_fields fs _
status-set_fields (set_filespace_id v ∷ fs) j = status-set_fields fs _
status-set_fields (set_datastore_id v ∷ fs) j = status-set_fields fs _
status-set_fields (set_created_at v ∷ fs) j = status-set_fields fs _
status-set_fields (set_started_at v ∷ fs) j = status-set_fields fs _
status-set_fields (set_completed_at v ∷ fs) j = status-set_fields fs _
status-set_fields (set_user_id v ∷ fs) j = status-set_fields fs _

pub started_at-set_fields :
    (ks : List Keyword) (j : Job) → (set_fields (fields_of ks) j).started_at ≡ j.started_at
unfolding set_fields
started_at-set_fields [] j = refl
started_at-set_fields (given_total n ∷ ks) j = started_at-set_fields ks _
started_at-set_fields (given_completed n ∷ ks) j = started_at-set_fields ks _
started_at-set_fields (given_failed n ∷ ks) j = started_at-set_fields ks _
started_at-set_fields (given_error s ∷ ks) j = started_at-set_fields ks _
