-- ===== src/Sessions/Logs.antt =====
-- The bound on the log lines of a session.
use Prim.Native.String
use connect_manager.Prelude.{
  ◌-◌, ◌≤◌, String, List, [], ◌∷◌, ◌++◌, arith, length, drop, ltb, length-drop, if◌then◌else◌,
}
use connect_manager.Sessions.{UserSession, max_logs, log}

trimmed :
    (L : List String)
    → length (if ltb max_logs (length L) then drop (length L - max_logs) L else L) ≤ max_logs
trimmed L = ground (arith, length-drop (length L - max_logs) L)

-- A line that is written leaves at most 500 of them.
pub length-log :
    (timestamp message : String) (s : UserSession)
    → length (log timestamp message s).logs ≤ max_logs
unfolding log
length-log timestamp message s =
    trimmed (s.logs ++ String.◌++◌ "[" (String.◌++◌ timestamp (String.◌++◌ "] " message)) ∷ [])
