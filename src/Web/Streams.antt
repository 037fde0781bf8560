-- ===== src/Web/Streams.antt =====
-- app/main.py: the streams of log lines and of the progress. What a generator does between two of its
-- suspensions is a function on what it remembers; what it yields is kept as the value of the JSON in it.
-- A client that disconnects ends a stream.
pub mod Followed
use connect_manager.Prelude.{
  ℕ, String, Bool, true, false, List, [], ◌∷◌, ◌++◌, Option, none, some, length, drop, ltb, ◌==◌,
  if◌then◌else◌,
}
use connect_manager.Db.Table.{Result, ok}
use connect_manager.Sessions
use connect_manager.Sessions.{UserSession}
use connect_manager.Web.{Request, World, Env, state_of, set_state, with_session}

-- What `logs_stream` remembers, and what it has yielded. It is suspended in its sleep, or at a `yield`
-- with the lines of the slice that are still to come.
pub record LogStream : Type 0 where
  pub last_index : ℕ
  pub pending : Option (List String)
  pub sent : List String

abbrev pub new_stream : LogStream
new_stream = record { last_index = 0; pending = none; sent = [] }

-- The loop over the slice goes on: it yields the next line, or ends with the length that the log has by
-- then.
abbrev pub yielded : UserSession → LogStream → List String → LogStream
yielded s st [] = record st { last_index = length s.logs; pending = none }
yielded s st (l ∷ ls) = record st { pending = some ls; sent = st.sent ++ l ∷ [] }

abbrev pub resumed : UserSession → LogStream → Option (List String) → LogStream
resumed s st none =
    if ltb st.last_index (length s.logs) then yielded s st (drop st.last_index s.logs) else st
resumed s st (some ls) = yielded s st ls

-- From one suspension to the next.
unfoldable pub resume : UserSession → LogStream → LogStream
resume s st = resumed s st st.pending

-- `progress_stream`; `last_progress` is none for the -1 of the start.
pub record ProgressStream : Type 0 where
  pub last_progress : Option ℕ
  pub values : List ℕ

abbrev same_progress : Option ℕ → ℕ → Bool
same_progress none n = false
same_progress (some m) n = n == m

unfoldable pub poll_progress : UserSession → ProgressStream → ProgressStream
poll_progress s st =
    if same_progress st.last_progress s.progress
    then st
    else (record { last_progress = some s.progress; values = st.values ++ s.progress ∷ [] })

-- `clear_logs` on the session, and as a handler.
abbrev pub without_logs : UserSession → UserSession
without_logs s = record s { logs = [] }

unfoldable pub clear_logs : Env → Request → World → Result (Unit {0}) × World
unfolding with_session
clear_logs e r w =
    with_session e r (λ u w'. (ok tt, set_state u (without_logs (state_of u w')) w')) w
