-- ===== src/Lock/Redis.antt =====
-- The Redis server, as the locks and the idempotency checker use it: an abstract state with the
-- commands that they send. A call may fail on the network, with the command done or not.
use ais_pkg.Prelude.{Bool, true, false, ◌≡◌, Option, some, none, Result, ok, err, if◌then◌else◌}
use ais_pkg.Prelude.Text.{Text, text_eq}
use ais_pkg.Prelude.Int.{ℤ, pos, ◌≤ℤ◌, ◌<ℤ◌}

-- The commands at one instant. `peek` is GET, `put` a SET with an expiry, `delete` a DEL, and
-- `pexpire` a PEXPIRE in milliseconds of a key that exists.
pub record Redis : Type 1 where
  pub State : Type 0
  pub peek : State → Text → Option Text
  pub put : Text → Text → ℤ → State → State
  pub delete : Text → State → State
  pub pexpire : Text → ℤ → State → State

-- The documented effect of the commands on the values of keys. A PEXPIRE of no or of negative time
-- deletes the key.
pub record RedisLaws (r : Redis) : Type 0 where
  pub peek-put :
      (k v j : Text) (ttl : ℤ) (s : r.State)
      → r.peek (r.put k v ttl s) j ≡ (if text_eq k j then some v else r.peek s j)
  pub peek-delete :
      (k j : Text) (s : r.State)
      → r.peek (r.delete k s) j ≡ (if text_eq k j then none else r.peek s j)
  pub peek-pexpire :
      (k j : Text) (ms : ℤ) (s : r.State) → pos 0 <ℤ ms → r.peek (r.pexpire k ms s) j ≡ r.peek s j
  pub peek-pexpire_past :
      (k j : Text) (ms : ℤ) (s : r.State)
      → ms ≤ℤ pos 0
      → r.peek (r.pexpire k ms s) j ≡ (if text_eq k j then none else r.peek s j)

-- An error of the client library: the context was canceled, or anything else.
pub data NetError : Type 0 where
  canceled network : NetError

-- What becomes of one call: it is answered, or it fails, with the command done or not.
pub data Delivery : Type 0 where
  answered : Delivery
  failed : (done : Bool) → NetError → Delivery

module _ {S A : Type 0} where
  -- One call: the answer and the state after it.
  abbrev pub call : Delivery → A × S → S → Result NetError A × S
  call answered (a, s') s = (ok a, s')
  call (failed true e) (a, s') s = (err e, s')
  call (failed false e) (a, s') s = (err e, s)

module _ (r : Redis) where
  abbrev pub set_absent : Option Text → Text → Text → ℤ → r.State → Bool × r.State
  set_absent none k v ttl s = (true, r.put k v ttl s)
  set_absent (some w) k v ttl s = (false, s)

  -- SET with NX: Client.SetNX
  unfoldable pub set_nx : Text → Text → ℤ → r.State → Bool × r.State
  set_nx k v ttl s = set_absent (r.peek s k) k v ttl s
