-- ===== src/Tests/Idempotency.antt =====
-- idempotency/checker.go on a concrete server.
use ais_pkg.Prelude.{◌≡◌, refl, true, false, [], ◌∷◌, ok}
use ais_pkg.Prelude.Text.{Text, codes, text_eq}
use ais_pkg.Prelude.Maps.{lookup}
use ais_pkg.Lock.Redis.{answered, set_nx}
use ais_pkg.Idempotency.Defs.{
  Checker, mode_required, mode_disabled, is_disabled, is_required, check, mark, check_and_mark,
  default_ttl,
}
use ais_pkg.Idempotency.Laws.{IsActive, marked, check_and_mark_once, mark-check, check-required}
use ais_pkg.Tests.Server.{server, server_laws}

abbrev checker : Checker
checker = record {
  available = true;
  key_prefix = b'p' ∷ [];
  ttl = default_ttl;
  mode = codes "required";
}

abbrev event : Text
event = b'e' ∷ []

enabled : is_disabled checker ≡ false
unfolding is_disabled codes mode_disabled text_eq
enabled = refl

required : is_required checker ≡ true
unfolding is_required codes mode_required text_eq
required = refl

active : IsActive checker
active = record { enabled = enabled; available = refl }

check_and_mark_once_example :
    ((check_and_mark server checker answered event []).0
      ≡ ok (marked server server_laws checker event []))
    × ((check_and_mark server checker answered event
          (check_and_mark server checker answered event []).1).0
        ≡ ok true)
check_and_mark_once_example =
    check_and_mark_once server server_laws checker event [] (λ s. s) active refl

mark-check_example :
    ((mark server checker answered event []).0 ≡ ok tt)
    × (check server checker answered event (mark server checker answered event []).1 ≡ ok true)
mark-check_example = mark-check server server_laws checker event [] active

unknown : check server checker answered event [] ≡ ok false
unfolding check lookup is_disabled codes mode_disabled text_eq
unknown = refl

check-required_example :
    (answered ≡ answered) × (false ≡ marked server server_laws checker event [])
check-required_example =
    check-required server server_laws checker event answered [] false required enabled unknown

claimed : (check_and_mark server checker answered event []).0 ≡ ok false
unfolding check_and_mark set_nx lookup is_disabled codes mode_disabled text_eq
claimed = refl
