-- ===== src/Poller/Stuck.antt =====
-- A message whose body is JSON but no object: it stops the poll of its queue, and stays there.
use connect_manager.Prelude.{
  ℕ, ◌+◌, ◌≡◌, ◌≢◌, refl, sym, ap, subst, String, Bool, true, false, List, [], ◌∷◌, ◌++◌, some,
}
use connect_manager.Db.Table.{Fault, Result, ok, err, type_error, attribute_error}
use connect_manager.Db.Rows.{SqsQueue}
use connect_manager.Credentials.Fernet.{Fernet}
use connect_manager.Notifications.Values.{Json, null, bool, num, other_num, str, arr, obj}
use connect_manager.Notifications.{Codec, parse_body, parse_s3_events}
use connect_manager.Poller.{Message, Remote, World, and_then}
use connect_manager.Poller.Sweep.{poll_message, poll_messages, poll_single_queue}

abbrev pub is_object : Json → Bool
is_object null = false
is_object (bool b) = false
is_object (num n) = false
is_object (other_num s) = false
is_object (str s) = false
is_object (arr xs) = false
is_object (obj fs) = true

-- What `"Message" in data` or `data.get` raises for what is no object.
abbrev pub fault_of : Json → Fault
fault_of null = type_error
fault_of (bool b) = type_error
fault_of (num n) = type_error
fault_of (other_num s) = type_error
fault_of (str s) = attribute_error
fault_of (arr xs) = attribute_error
fault_of (obj fs) = type_error

parse_body_of :
    (codec : Codec) (j : Json) → is_object j ≡ false → parse_body codec (some j) ≡ err (fault_of j)
parse_body_of codec null e = refl
parse_body_of codec (bool b) e = refl
parse_body_of codec (num n) e = refl
parse_body_of codec (other_num s) e = refl
parse_body_of codec (str s) e = refl
parse_body_of codec (arr xs) e = refl
parse_body_of codec (obj fs) e = absurd (cc)

module _ {X : Type 0} (f : Fernet) (codec : Codec) (rm : Remote X) (queue : SqsQueue) where
  poll_message_of :
      (message : Message) (j : Json) (w : World X)
      → codec.loads message.body ≡ some j
      → is_object j ≡ false
      → poll_message f codec rm queue message w ≡ (err (fault_of j), w)
  unfolding poll_message parse_s3_events
  poll_message_of message j w loaded e = rw (loaded, parse_body_of codec j e) refl

  -- Messages that are polled one after the other.
  poll_messages-append :
      (earlier later : List Message) (w w' : World X) (n : ℕ) (e : Fault)
      → poll_messages f codec rm queue earlier w ≡ (ok n, w')
      → poll_messages f codec rm queue later w' ≡ (err e, w')
      → poll_messages f codec rm queue (earlier ++ later) w ≡ (err e, w')
  unfolding poll_messages
  poll_messages-append [] later w w' n e ran stuck =
      subst (λ v. poll_messages f codec rm queue later v ≡ (err e, w')) (ap (λ r. r.1) (sym ran))
        stuck
  poll_messages-append (m ∷ ms) later w w' n e ran stuck =
      first (λ v l q. poll_messages-append ms later v w' l e q stuck)
        (poll_message f codec rm queue m w) ran
    where
      second :
          (k : ℕ) (r : Result ℕ × World X)
          → and_then r (λ l w''. (ok (k + l), w'')) ≡ (ok n, w')
          → (l : ℕ) × (r ≡ (ok l, w'))
      second k (ok l, v) p = (l, ap (λ r. (ok l, r.1)) p)
      second k (err x, v) p = absurd (not_ok (ap (λ r. r.0) p))
        where
          not_ok : err x ≢ ok n
          not_ok q = cc

      first :
          ((v : World X) (l : ℕ)
            → poll_messages f codec rm queue ms v ≡ (ok l, w')
            → poll_messages f codec rm queue (ms ++ later) v ≡ (err e, w'))
          → (r : Result ℕ × World X)
          → and_then r
              (λ k v. and_then (poll_messages f codec rm queue ms v) λ l v'. (ok (k + l), v'))
            ≡ (ok n, w')
          → and_then r (λ k v.
            and_then (poll_messages f codec rm queue (ms ++ later) v) λ l v'. (ok (k + l), v'))
            ≡ (err e, w')
      first again (ok k, v) p =
          let (l, q) = second k (poll_messages f codec rm queue ms v) p in rw (again v l q) refl
      first again (err x, v) p = absurd (not_ok (ap (λ r. r.0) p))
        where
          not_ok : err x ≢ ok n
          not_ok q = cc

  -- Where a message among those that a poll receives has a body that is JSON but no object, and the ones
  -- before it are polled without an exception, the poll of the queue raises in the world that those
  -- left: the message is not deleted, and the ones behind it are not looked at.
  pub poll_single_queue-not_object :
      (access_key secret_key region : String) (earlier later : List Message) (message : Message)
      (j : Json) (w w' : World X) (x : X) (n : ℕ)
      → rm.receive_messages access_key secret_key region queue.queue_url w.remote
        ≡ (ok (earlier ++ message ∷ later), x)
      → poll_messages f codec rm queue earlier (record w { remote = x }) ≡ (ok n, w')
      → codec.loads message.body ≡ some j
      → is_object j ≡ false
      → poll_single_queue f codec rm queue access_key secret_key region w ≡ (err (fault_of j), w')
  unfolding poll_single_queue
  poll_single_queue-not_object access_key secret_key region earlier later message j w w' x n got ran
        loaded e =
      rw got (
        poll_messages-append earlier (message ∷ later) (record w { remote = x }) w' n (fault_of j)
          ran (stuck loaded e))
    where
      stuck :
          codec.loads message.body ≡ some j
          → is_object j ≡ false
          → poll_messages f codec rm queue (message ∷ later) w' ≡ (err (fault_of j), w')
      stuck loaded' e' = rw (poll_messages, poll_message_of message j w' loaded' e') refl
