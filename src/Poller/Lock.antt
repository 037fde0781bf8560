-- ===== src/Poller/Lock.antt =====
-- The poll lock in Valkey: SET NX EX, and the script that deletes it for its owner.
use connect_manager.Prelude.{
  ℕ, ◌+◌, ◌≡◌, ◌<◌, String, Bool, true, false, List, [], ◌∷◌, Option, none, some, All, All-imp,
  arith, str_eq, ltb, subst, sym, ap, ◌∙◌, ◌⊎◌, inl, inr, if◌then◌else◌,
}
use connect_manager.Db.Table.{delete}
use connect_manager.Db.Table.Keyed.{All-delete_cases}
use connect_manager.Db.Rows.{Time}

pub record Held : Type 0 where
  pub owner : String
  pub expires : Time

abbrev pub poll_lock_ttl : ℕ
poll_lock_ttl = 60_000_000

-- The value that a GET reads.
abbrev pub live : Time → Option Held → Option Held
live now none = none
live now (some h) = if ltb now h.expires then some h else none

abbrev taken : Time → String → Option Held → Option Held × Bool
taken now worker_id none =
    (some (record { owner = worker_id; expires = now + poll_lock_ttl }), true)
taken now worker_id (some h) = (some h, false)

unfoldable pub acquire_poll_lock : Time → String → Option Held → Option Held × Bool
acquire_poll_lock now worker_id lock = taken now worker_id (live now lock)

abbrev released : String → Option Held → Option Held × Bool
released worker_id none = (none, false)
released worker_id (some h) = if str_eq h.owner worker_id then (none, true) else (some h, false)

unfoldable pub release_poll_lock : Time → String → Option Held → Option Held × Bool
release_poll_lock now worker_id lock = released worker_id (live now lock)

-- A worker that took the lock and has not given it back.
pub record Sweep : Type 0 where
  pub worker : String
  pub since : Time

pub record System : Type 0 where
  pub now : Time
  pub lock : Option Held
  pub sweeps : List Sweep

abbrev pub is_of : String → Sweep → Bool
is_of worker s = str_eq s.worker worker

-- Time passes, a worker takes the lock, finds it taken, or gives it back.
pub data Step : System → System → Type 0 where
  wait : (s : System) (d : ℕ) → Step s (record s { now = s.now + d })
  take :
      (s : System) (worker : String)
      → (acquire_poll_lock s.now worker s.lock).1 ≡ true
      → Step s (record s {
        lock = (acquire_poll_lock s.now worker s.lock).0;
        sweeps = record { worker = worker; since = s.now } ∷ s.sweeps;
      })
  miss :
      (s : System) (worker : String)
      → (acquire_poll_lock s.now worker s.lock).1 ≡ false
      → Step s (record s { lock = (acquire_poll_lock s.now worker s.lock).0 })
  give :
      (s : System) (worker : String)
      → Step s (record s {
        lock = (release_poll_lock s.now worker s.lock).0;
        sweeps = delete (is_of worker) s.sweeps;
      })

pub data Reach (s : System) : System → Type 0 where
  here : Reach s s
  next : {t u : System} → Reach s t → Step t u → Reach s u

abbrev pub idle : System
idle = record { now = 0; lock = none; sweeps = [] }

-- A sweep that started less than the lock's lifetime ago owns the lock.
abbrev Owns : Time → Option Held → Sweep → Type 0
Owns now lock w =
    now < w.since + poll_lock_ttl
    → lock ≡ some (record { owner = w.worker; expires = w.since + poll_lock_ttl })

abbrev IsExclusive : System → Type 0
IsExclusive s = All (Owns s.now s.lock) s.sweeps

Owns-later :
    (now d : Time) (lock : Option Held) (w : Sweep) → Owns now lock w → Owns (now + d) lock w
Owns-later now d lock w h k = h (omega arith)

Owns-miss :
    (now : Time) (worker : String) (lock : Option Held) (w : Sweep)
    → (acquire_poll_lock now worker lock).1 ≡ false
    → Owns now lock w
    → Owns now (acquire_poll_lock now worker lock).0 w
unfolding acquire_poll_lock
Owns-miss now worker lock w e h k = ground (arith, e, h k)

-- Where the lock could be taken, no earlier sweep is within its time.
Owns-take :
    (now : Time) (worker : String) (lock : Option Held) (w : Sweep)
    → (acquire_poll_lock now worker lock).1 ≡ true
    → Owns now lock w
    → Owns now (acquire_poll_lock now worker lock).0 w
unfolding acquire_poll_lock
Owns-take now worker lock w e h k = ground (arith, e, h k)

Owns-give :
    (now : Time) (worker : String) (lock : Option Held) (w : Sweep)
    → is_of worker w ≡ false
    → Owns now lock w
    → Owns now (release_poll_lock now worker lock).0 w
unfolding release_poll_lock
Owns-give now worker lock w e h k = ground (arith, e, h k)

Owns-self :
    (now : Time) (worker : String) (lock : Option Held)
    → (acquire_poll_lock now worker lock).1 ≡ true
    → Owns now (acquire_poll_lock now worker lock).0 (record { worker = worker; since = now })
unfolding acquire_poll_lock
Owns-self now worker lock e k = ground (arith, e)

Step-IsExclusive : {s t : System} → Step s t → IsExclusive s → IsExclusive t
Step-IsExclusive (wait s d) h =
    All-imp _ (Owns (s.now + d) s.lock) (Owns-later s.now d s.lock) s.sweeps h
Step-IsExclusive (take s worker e) h = (
  Owns-self s.now worker s.lock e,
  All-imp _ (Owns s.now (acquire_poll_lock s.now worker s.lock).0)
      (λ w. Owns-take s.now worker s.lock w e) s.sweeps h,
)
Step-IsExclusive (miss s worker e) h =
    All-imp _ (Owns s.now (acquire_poll_lock s.now worker s.lock).0)
      (λ w. Owns-miss s.now worker s.lock w e) s.sweeps h
Step-IsExclusive (give s worker) h =
    All-delete_cases (Owns s.now s.lock) (Owns s.now (release_poll_lock s.now worker s.lock).0) _
      (λ w. Owns-give s.now worker s.lock w) s.sweeps h

Reach-IsExclusive : {s t : System} → IsExclusive s → Reach s t → IsExclusive t
Reach-IsExclusive h here = h
Reach-IsExclusive h (next r step) = Step-IsExclusive step (Reach-IsExclusive h r)

-- A sweep of the list, by its place.
abbrev pub Among : Sweep → List Sweep → Type 0
Among w [] = ⊥
Among w (x ∷ xs) = (x ≡ w) ⊎ Among w xs

All-Among : (P : Sweep → Type 0) (w : Sweep) (xs : List Sweep) → All P xs → Among w xs → P w
All-Among P w [] h m = elim m [ ]
All-Among P w (x ∷ xs) h (inl e) = subst P e h.0
All-Among P w (x ∷ xs) h (inr m) = All-Among P w xs h.1 m

-- However workers take, miss and give back the lock while time passes: two sweeps that both started
-- less than the lock's lifetime ago are one and the same.
pub poll_lock_exclusive :
    {s : System} (v w : Sweep)
    → Reach idle s
    → Among v s.sweeps
    → Among w s.sweeps
    → s.now < v.since + poll_lock_ttl
    → s.now < w.since + poll_lock_ttl
    → (v.worker ≡ w.worker) × (v.since ≡ w.since)
poll_lock_exclusive {s} v w r mv mw kv kw =
    let all = Reach-IsExclusive tt r in
    let at_v = All-Among (Owns s.now s.lock) v s.sweeps all mv kv in
    let at_w = All-Among (Owns s.now s.lock) w s.sweeps all mw kw in
    let same = sym at_v ∙ at_w in (cc, omega (arith, ap expiry same))
  where
    expiry : Option Held → ℕ
    expiry none = 0
    expiry (some h) = h.expires
