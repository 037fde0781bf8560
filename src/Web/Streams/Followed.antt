-- ===== src/Web/Streams/Followed.antt =====
-- What a stream of log lines has sent after any sequence of writes, resumptions and clearings.
use Prim.Native.String
use mathlib.Core.List.{append-nil, append_assoc}
use connect_manager.Prelude.{
  ℕ, zero, suc, ◌+◌, ◌≤◌, ◌<◌, ◌≡◌, refl, sym, ap, ◌∙◌, String, false, List, [], ◌∷◌, ◌++◌, Option,
  none, some, arith, take_all, take-append_left, length, take, drop, ltb, take-append-drop,
  length-append, length-drop, inl, inr, Bool-cases,
}
use connect_manager.Sessions.Logs.{length-log}
use connect_manager.Sessions.{UserSession, max_logs, log}
use connect_manager.Web.Streams.{LogStream, new_stream, yielded, resumed, resume, without_logs}

-- A line is written, the stream is resumed up to its next suspension, or the user clears the log.
pub data Step : Type 0 where
  write : (timestamp message : String) → Step
  round : Step
  clear : Step

unfoldable pub step : Step → UserSession × LogStream → UserSession × LogStream
unfolding log resume
step (write t m) (s, st) = (log t m s, st)
step round (s, st) = (s, resume s st)
step clear (s, st) = (without_logs s, st)

unfoldable pub run : List Step → UserSession × LogStream → UserSession × LogStream
unfolding step
run [] x = x
run (a ∷ rest) x = run rest (step a x)

-- The lines that the steps write.
abbrev pub line : String → String → String
line t m = String.◌++◌ "[" (String.◌++◌ t (String.◌++◌ "] " m))

abbrev pub lines : List Step → List String
lines [] = []
lines (write t m ∷ rest) = line t m ∷ lines rest
lines (round ∷ rest) = lines rest
lines (clear ∷ rest) = lines rest

-- Nobody clears the log, and lines are written only while the stream sleeps.
abbrev pub IsCalm : List Step → UserSession × LogStream → Type 0
IsCalm [] x = Unit
IsCalm (write t m ∷ rest) x = (x.1.pending ≡ none) × IsCalm rest (step (write t m) x)
IsCalm (round ∷ rest) x = IsCalm rest (step round x)
IsCalm (clear ∷ rest) x = ⊥

-- The stream is resumed a number of times, and nothing else happens.
unfoldable pub times : ℕ → UserSession → LogStream → LogStream
unfolding resume
times zero s st = st
times (suc n) s st = times n s (resume s st)

log-append :
    (t m : String) (s : UserSession)
    → length s.logs < max_logs
    → (log t m s).logs ≡ s.logs ++ line t m ∷ []
unfolding log
log-append t m s h = rw (small (length-append s.logs (line t m ∷ []))) refl
  where
    small :
        length (s.logs ++ line t m ∷ []) ≡ length s.logs + 1
        → ltb max_logs (length (s.logs ++ line t m ∷ [])) ≡ false
    small e = ground (arith, e)

-- The stream has sent the first lines of the log, or is about to send the rest of it.
abbrev Abreast : List String → ℕ → List String → Option (List String) → Type 0
Abreast logs i sent none = (sent ≡ take i logs) × (i ≤ length logs)
Abreast logs i sent (some ls) = sent ++ ls ≡ logs

abbrev IsAbreast : UserSession × LogStream → Type 0
IsAbreast (s, st) = Abreast s.logs st.last_index st.sent st.pending

yielded-IsAbreast :
    (s : UserSession) (st : LogStream) (ls : List String)
    → st.sent ++ ls ≡ s.logs
    → IsAbreast (s, yielded s st ls)
yielded-IsAbreast s st [] h = (
  sym (append-nil st.sent) ∙ h ∙ sym (take_all (length s.logs) s.logs (omega arith)),
  omega arith,
)
yielded-IsAbreast s st (l ∷ ls) h = append_assoc st.sent (l ∷ []) ls ∙ h

resumed-IsAbreast :
    (s : UserSession) (st : LogStream) (o : Option (List String))
    → st.pending ≡ o
    → Abreast s.logs st.last_index st.sent o
    → IsAbreast (s, resumed s st o)
resumed-IsAbreast s st none p h = elim (Bool-cases (ltb st.last_index (length s.logs))) [
  | inl e ↦ rw e (
      yielded-IsAbreast s st (drop st.last_index s.logs)
        (rw h.0 (take-append-drop st.last_index s.logs)))
  | inr e ↦ rw (e, p) h
]
resumed-IsAbreast s st (some ls) p h = yielded-IsAbreast s st ls h

still :
    (s : UserSession) (st : LogStream)
    → length s.logs ≤ st.last_index
    → st.pending ≡ none
    → resume s st ≡ st
unfolding resume
still s st h p = ap (resumed s st) p ∙ rw (behind h) refl
  where
    behind : length s.logs ≤ st.last_index → ltb st.last_index (length s.logs) ≡ false
    behind h' = ground arith

silent :
    (n : ℕ) (s : UserSession) (st : LogStream)
    → length s.logs ≤ st.last_index
    → st.pending ≡ none
    → times n s st ≡ st
unfolding times
silent zero s st h p = refl
silent (suc n) s st h p = ap (times n s) (still s st h p) ∙ silent n s st h p

-- What is left of a slice gets sent.
sent-yielded :
    (ls : List String) (n : ℕ) (s : UserSession) (st : LogStream)
    → st.sent ++ ls ≡ s.logs
    → length ls ≤ n
    → (times n s (yielded s st ls)).sent ≡ s.logs
unfolding times resume
sent-yielded [] n s st h k =
    ap (λ x. x.sent) (silent n s (yielded s st []) (omega arith) refl)
    ∙ sym (append-nil st.sent)
    ∙ h
sent-yielded (l ∷ ls) zero s st h k = absurd (omega (arith, k))
sent-yielded (l ∷ ls) (suc n) s st h k =
    sent-yielded ls n s (yielded s st (l ∷ ls)) (append_assoc st.sent (l ∷ []) ls ∙ h)
      (omega (arith, k))

sent-resumed :
    (n : ℕ) (s : UserSession) (st : LogStream) (o : Option (List String))
    → st.pending ≡ o
    → Abreast s.logs st.last_index st.sent o
    → length s.logs ≤ n
    → (times n s (resumed s st o)).sent ≡ s.logs
sent-resumed n s st none p h k = elim (Bool-cases (ltb st.last_index (length s.logs))) [
  | inl e ↦ rw e (
      sent-yielded (drop st.last_index s.logs) n s st
        (rw h.0 (take-append-drop st.last_index s.logs))
        (omega (arith, k, length-drop st.last_index s.logs)))
  | inr e ↦ rw e (
      ap (λ x. x.sent) (silent n s st (ground (arith, e)) p)
      ∙ h.0
      ∙ take_all st.last_index s.logs (ground (arith, e)))
]
sent-resumed n s st (some ls) p h k =
    sent-yielded ls n s st h (omega (arith, k, ap length h, length-append st.sent ls))

lines-cons : (a : Step) (rest : List Step) → lines (a ∷ rest) ≡ lines (a ∷ []) ++ lines rest
lines-cons (write t m) rest = refl
lines-cons round rest = refl
lines-cons clear rest = refl

module _ (s : UserSession) (st : LogStream) where
  log-IsAbreast :
      (t m : String)
      → st.pending ≡ none
      → length s.logs < max_logs
      → IsAbreast (s, st)
      → IsAbreast (log t m s, st)
  log-IsAbreast t m p room h =
      let more = log-append t m s room in
      let (same, at) = rw p at h in
      rw (p, more)
        (
          same ∙ sym (take-append_left st.last_index s.logs (line t m ∷ []) at),
          omega (arith, at, length-append s.logs (line t m ∷ [])),
        )

run-IsAbreast :
    (script : List Step) (s : UserSession) (st : LogStream)
    → IsCalm script (s, st)
    → length s.logs + length (lines script) ≤ max_logs
    → IsAbreast (s, st)
    → IsAbreast (run script (s, st)) × ((run script (s, st)).0.logs ≡ s.logs ++ lines script)
unfolding run step
run-IsAbreast [] s st calm room h = (h, sym (append-nil s.logs))
run-IsAbreast (write t m ∷ rest) s st calm room h =
    let more = log-append t m s (omega (arith, room)) in
    let grown = ap length more ∙ length-append s.logs (line t m ∷ []) in
    let next = log-IsAbreast s st t m calm.0 (omega (arith, room)) h in
    let after = run-IsAbreast rest (log t m s) st calm.1 (omega (arith, room, grown)) next in
    (after.0, after.1 ∙ rw more (append_assoc s.logs (line t m ∷ []) (lines rest)))
run-IsAbreast (round ∷ rest) s st calm room h =
    run-IsAbreast rest s (resume s st) calm room (resumed-IsAbreast s st st.pending refl h)
run-IsAbreast (clear ∷ rest) s st calm room h = absurd calm

-- While nobody clears the log, it has room, and lines are written only while the stream sleeps, a stream
-- that follows the log from the start has sent every line that was there or was written, each once and in
-- order, after it was resumed once more than the log is long.
pub times-run :
    (script : List Step) (s : UserSession) (n : ℕ)
    → IsCalm script (s, new_stream)
    → length s.logs + length (lines script) ≤ max_logs
    → length s.logs + length (lines script) ≤ n
    → let (s', st) = run script (s, new_stream) in
      (times (suc n) s' st).sent ≡ s.logs ++ lines script
unfolding times resume
times-run script s n calm room enough =
    let after = run-IsAbreast script s new_stream calm room (refl, omega arith) in
    let (s', st) = run script (s, new_stream) in
    sent-resumed n s' st st.pending refl after.0
      (omega (arith, enough, ap length after.1, length-append s.logs (lines script)))
    ∙ after.1

-- A stream that has seen a full log and sleeps never sends a line again, whatever is written or cleared.
pub run-full :
    (script : List Step) (s : UserSession) (st : LogStream)
    → length s.logs ≤ max_logs
    → st.last_index ≡ max_logs
    → st.pending ≡ none
    → (run script (s, st)).1 ≡ st
unfolding run step
run-full [] s st h e p = refl
run-full (write t m ∷ script) s st h e p = run-full script (log t m s) st (length-log t m s) e p
run-full (round ∷ script) s st h e p =
    ap (λ x. (run script (s, x)).1) (still s st (omega (arith, h, e)) p)
    ∙ run-full script s st h e p
run-full (clear ∷ script) s st h e p = run-full script (without_logs s) st (omega arith) e p
