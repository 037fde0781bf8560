-- ===== src/Web/Datastores.antt =====
-- app/main.py: the handlers that connect to filespaces and keep the credentials of data stores. The S3
-- service of a pair of keys is a parameter.
use connect_manager.Prelude.{
  ℕ, String, List, [], ◌∷◌, Option, none, some, or_else, length, if◌then◌else◌,
}
use connect_manager.Text.Format.{◌<>◌, shown, strip, is_space}
use connect_manager.Processed.{truthy}
use connect_manager.Db.Table.{Result, ok, err, ◌>>=◌}
use connect_manager.Db.Rows.{Uuid}
use connect_manager.Notifications.Values.{Json, iterated, items}
use connect_manager.LucidLink.{new_client}
use connect_manager.LucidLink.Datastores.{
  Answered, value, message, list_filespaces, list_datastores,
}
use connect_manager.ActivityLog.Actions.{app_error, app_connection}
use connect_manager.Sessions.{Dict, find_in, UserSession, save_token, save_api_host}
use connect_manager.Web.{
  Request, World, Env, parse_uid, state_of, set_state, say, note, http, with_session, with_uid,
}
use connect_manager.Web.Stores.{
  Row, Page, filespace_error, filespace_select, datastore_list, keys, taken, filespaces_in,
}

abbrev first_key : {V : Type 0} → Dict V → Option (String × V)
first_key [] = none
first_key (x ∷ d) = some x

module _ (e : Env) where
  -- What `state.save_token` and `state.save_api_host` write.
  abbrev pub token_saved : String → Option Uuid → World → World
  token_saved u uid w = record w {
    settings = save_token e.fernet e.now e.nonce uid (state_of u w) w.settings;
  }

  abbrev pub host_saved : String → Option Uuid → World → World
  host_saved u uid w = record w {
    settings = save_api_host e.fernet e.now uid (state_of u w) w.settings;
  }

  -- The stores that the API returned replace those of the session.
  unfoldable pub take_stores :
      Option String → List Json → Option Uuid → String → World → Result (List Row) × World
  unfolding taken
  take_stores added found uid u w =
      let (rows, d) = taken added uid w.datastores found [] in
      (rows, set_state u (record (state_of u w) { datastores = d }) w)

  -- `list_datastores` with the session's token and host.
  abbrev pub stores_listed : String → String → World → List Json × World
  stores_listed filespace_id u w =
      let s = state_of u w in
      let (found, sent) =
        list_datastores (http e) (new_client e.ll_host s.api_host) s.token filespace_id s.api_host
          w.requests in
      (items found, record w { requests = sent })

  abbrev pub selected : String → String → World → World
  selected name u w = set_state u (record (state_of u w) { selected_filespace = name }) w

  abbrev pub count_message : ℕ → String → String
  count_message n name = "Loaded " <> shown n <> " datastores for " <> name

  abbrev pub after_stores :
      String → ℕ → String → Result (List Row) × World → Result (List Row) × World
  after_stores name n u (err x, w) = (err x, w)
  after_stores name n u (ok rows, w) = (ok rows, say e u (count_message n name) (selected name u w))

  abbrev pub emptied : String → World → World
  emptied u w = set_state u (record (state_of u w) { datastores = [] }) w

  abbrev pub stores_found :
      String → List Json → String → World → Result (Option Uuid) → Result (List Row) × World
  stores_found name found u w (err x) = (err x, emptied u w)
  stores_found name found u w (ok uid) =
      after_stores name (length found) u (take_stores none found uid u w)

  -- The stores of a filespace are loaded, and the filespace is selected; `parsed` is what `_parse_uid`
  -- returns or raises.
  unfoldable pub stores_loaded :
      String → String → Result (Option Uuid) → String → World → Result (List Row) × World
  unfolding list_datastores take_stores shown
  stores_loaded name filespace_id parsed u w =
      let (found, w') = stores_listed filespace_id u w in stores_found name found u w' parsed

  abbrev pub select_page :
      String → String → Request → Result (List Row) × World → Result Page × World
  select_page u name r (err x, w) = (err x, w)
  select_page u name r (ok rows, w) = (
    ok (filespace_select (keys (state_of u w).filespaces) (some name) rows),
    note e (app_connection r.user_id name (length rows) none) w,
  )

  abbrev pub with_first :
      Option (String × String) → Option Uuid → String → Request → World → Result Page × World
  with_first none uid u r w = (ok (filespace_select [] none []), w)
  with_first (some (name, id)) uid u r w = select_page u name r (stores_loaded name id (ok uid) u w)

  abbrev pub filespaces_kept : String → String → Dict String → String → World → World
  filespaces_kept token host d u w =
      set_state u (record (state_of u w) { filespaces = d; token = token; api_host = host }) w

  -- `load_filespaces` once the API has answered with a list.
  unfoldable pub filespaces_loaded :
      Dict String → ℕ → String → Request → Option Uuid → World → Result Page × World
  unfolding stores_loaded save_token save_api_host shown
  filespaces_loaded d n u r uid w =
      let saved = host_saved u uid (token_saved u uid w) in
      with_first (first_key d) uid u r (say e u ("Loaded " <> shown n <> " filespaces") saved)

  abbrev pub read_filespaces : Json → Result (Dict String × ℕ)
  read_filespaces v = do found ← iterated v; d ← filespaces_in found []; ok (d, length found)

  abbrev pub with_filespaces :
      String → String → String → Request → World → Result (Dict String × ℕ) → Result Page × World
  with_filespaces token host u r w (err x) = (err x, w)
  with_filespaces token host u r w (ok (d, n)) =
      with_uid e r (filespaces_loaded d n u r) (filespaces_kept token host d u w)

  abbrev pub filespaces_answered :
      String → String → String → Request → World → Answered → Result Page × World
  filespaces_answered token host u r w (message m) = (
    ok (filespace_error m),
    note e (app_error ("Failed to connect: " <> m) r.user_id none none)
        (say e u ("Error loading filespaces: " <> m) w),
  )
  filespaces_answered token host u r w (value v) =
      with_filespaces token host u r w (read_filespaces v)

  abbrev pub effective_host : Option String → UserSession → String
  effective_host api_host s =
      if truthy api_host then strip is_space (or_else api_host "") else s.api_host

  unfoldable pub load_filespaces :
      (token : String) → (api_host : Option String) → Request → World → Result Page × World
  unfolding with_session with_uid filespaces_loaded filespaces_in list_filespaces strip
  load_filespaces token api_host r w =
      with_session e r
        (λ u w'.
          let host = effective_host api_host (state_of u w') in
          let (answer, sent) =
            list_filespaces (http e) (new_client e.ll_host host) token host w'.requests in
          filespaces_answered token host u r (record w' { requests = sent }) answer)
        w

  abbrev pub list_page : Result (List Row) × World → Result Page × World
  list_page (err x, w) = (err x, w)
  list_page (ok rows, w) = (ok (datastore_list rows none none), w)

  abbrev pub in_filespace : String → Option String → Request → String → World → Result Page × World
  in_filespace name none r u w = (ok (datastore_list [] (some "Invalid filespace") none), w)
  in_filespace name (some id) r u w = list_page (stores_loaded name id (parse_uid e r) u w)

  unfoldable pub load_datastores : (filespace : String) → Request → World → Result Page × World
  unfolding with_session stores_loaded
  load_datastores filespace r w =
      with_session e r
        (λ u w'. in_filespace filespace (find_in filespace (state_of u w').filespaces) r u w') w
