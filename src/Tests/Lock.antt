-- ===== src/Tests/Lock.antt =====
-- cache/redis/lock.go on a concrete server.
use ais_pkg.Prelude.{ℕ, ◌≡◌, ◌≢◌, refl, arith, true, false, List, [], ◌∷◌, some, none, ok}
use ais_pkg.Prelude.Text.{Text, text_eq}
use ais_pkg.Prelude.Int.{pos, ◌<ℤ◌}
use ais_pkg.Prelude.Maps.{lookup}
use ais_pkg.Lock.Redis.{answered, set_nx}
use ais_pkg.Lock.Defs.{
  LockOption, Lock, milliseconds, extend, extend_script, release, release_script,
}
use ais_pkg.Lock.AutoExtend.{Factors, Try, try_extend}
use ais_pkg.Lock.Acquire.{
  Attempt, prepared, update_on_lock_lost, set_ttl, acquire_with_option, acquire_prepared,
  attempt_loop,
}
use ais_pkg.Lock.Holding.{Holds, release_frees, acquire_with_option-Holds}
use ais_pkg.Lock.Foreign.{Has, foreign_value_stays, acquire_excluded}
use ais_pkg.Lock.Losing.{extend_below_millisecond}
use ais_pkg.Lock.Telling.{Told, try_extend-Told}
use ais_pkg.Lock.Steps.{OwnStep, Trace}
use ais_pkg.Lock.Refinement.{lock-refines_owner}
use ais_pkg.Tests.Server.{server, server_laws}

abbrev lock_key : Text
lock_key = b'k' ∷ []

abbrev mine : Text
mine = []

abbrev theirs : Text
theirs = b't' ∷ []

abbrev fresh_value : Text
fresh_value = b'u' ∷ b'v' ∷ []

abbrev option : LockOption ℕ ℕ
option = record {
  ttl = pos 30_000_000_000;
  retry_times = pos 2;
  retry_delay = pos 100_000_000;
  auto_extend = true;
  extend_factor = 1;
  max_lifetime = pos 0;
  ignore_parent_cancel = false;
  on_lock_lost = some 7;
}

abbrev lock : Lock ℕ ℕ
lock = record {
  key = lock_key;
  value = mine;
  ttl = pos 30_000_000_000;
  default_opt = option;
  extension = none;
  acquired = true;
}

abbrev held : List (Text × Text)
held = (lock_key, mine) ∷ []

abbrev taken : List (Text × Text)
taken = (lock_key, theirs) ∷ []

abbrev factors : Factors ℕ
factors = record { invalid = λ n. false; half = 1 }

abbrev quiet : ℕ → Attempt server
quiet i = record { delivery = answered; ctx_done = false; others = λ s. s }

abbrev tries : ℕ → Try server ℕ ℕ
tries i = record { delivery = answered; ctx_done = false; others = λ l s. (l, s) }

released : (release server lock answered held).0 ≡ ok tt
unfolding release release_script lookup text_eq
released = refl

release_frees_example :
    (server.peek held lock_key ≡ some mine)
    × (server.peek (release server lock answered held).2 lock_key ≡ none)
    × ((release server lock answered held).1.extension ≡ none)
release_frees_example = release_frees server server_laws lock answered held released

ttl_long : pos 0 <ℤ milliseconds (prepared option lock).ttl
unfolding prepared update_on_lock_lost set_ttl
ttl_long = omega arith

-- A lock that was not held acquires a free key.
abbrev idle : Lock ℕ ℕ
idle = record lock { acquired = false }

idle_long : pos 0 <ℤ milliseconds (prepared option idle).ttl
unfolding prepared update_on_lock_lost set_ttl
idle_long = omega arith

acquired_free :
    (acquire_with_option server factors option fresh_value answered quiet idle []).0 ≡ ok tt
unfolding acquire_with_option acquire_prepared prepared update_on_lock_lost set_ttl attempt_loop
    set_nx lookup
acquired_free = refl

acquire_with_option-Holds_example :
    Holds server
      (acquire_with_option server factors option fresh_value answered quiet idle []).1
      (acquire_with_option server factors option fresh_value answered quiet idle []).2
    × ((acquire_with_option server factors option fresh_value answered quiet idle []).1.key
        ≡ lock_key)
acquire_with_option-Holds_example =
    acquire_with_option-Holds server server_laws factors option fresh_value answered quiet idle []
      idle_long acquired_free

theirs_there : server.peek taken lock_key ≡ some theirs
unfolding lookup text_eq
theirs_there = refl

foreign_value_stays_example :
    Has server server_laws lock_key theirs (release server lock answered taken).2
    × Has server server_laws lock_key theirs (extend server lock (pos 0) answered taken).1
foreign_value_stays_example =
    foreign_value_stays server server_laws lock_key theirs lock (pos 0) answered taken (cc)
      theirs_there

acquire_excluded_example :
    ((acquire_with_option server factors option fresh_value answered quiet lock taken).0 ≢ ok tt)
    × Has server server_laws lock_key theirs
        (acquire_with_option server factors option fresh_value answered quiet lock taken).2
acquire_excluded_example =
    acquire_excluded server server_laws lock_key theirs factors option fresh_value answered quiet
      lock taken ttl_long refl (cc) (cc) (λ i s h. h) theirs_there

short_done : (extend server lock (pos 999_999) answered held).0 ≡ ok tt
unfolding extend extend_script lookup text_eq
short_done = refl

extend_below_millisecond_example :
    server.peek (extend server lock (pos 999_999) answered held).1 lock_key ≡ none
extend_below_millisecond_example =
    extend_below_millisecond server server_laws lock (pos 999_999) answered held (omega arith)
      short_done

try_extend-Told_example :
    Told server tries 3
      (pos 30_000_000_000)
      lock
      (try_extend server tries (pos 30_000_000_000) lock taken)
try_extend-Told_example = try_extend-Told server tries (pos 30_000_000_000) lock taken

-- Others do nothing.
abbrev Idle : List (Text × Text) → List (Text × Text) → Type 0
Idle s t = t ≡ s

lock-refines_owner_example :
    Trace server server_laws lock.key lock.value fresh_value Idle taken
      (acquire_with_option server factors option fresh_value answered quiet lock taken).2
    × Trace server server_laws lock.key lock.value fresh_value Idle taken
        (try_extend server tries (pos 5_000_000) lock taken).state
    × OwnStep server server_laws lock.key lock.value fresh_value taken
        (extend server lock (pos 5_000_000) answered taken).1
    × OwnStep server server_laws lock.key lock.value fresh_value taken
        (release server lock answered taken).2
lock-refines_owner_example =
    lock-refines_owner server server_laws factors option fresh_value Idle answered quiet tries
      (pos 5_000_000) lock taken (λ i s. refl) (λ i m s. (refl, refl, refl))
