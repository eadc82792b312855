-- ===== src/Response/Laws.antt =====
-- The HTTP status and the message that a response carries.
use ais_pkg.Prelude.{
  ◌≡◌, refl, arith, Bool, true, false, if◌then◌else◌, ◌⊎◌, Option, some, none, List, [], ◌∷◌, All,
}
use ais_pkg.Prelude.Text.{Text}
use ais_pkg.Prelude.Int.{ℤ, pos, ◌≤ℤ◌, ◌<ℤ◌, eqb_ℤ}
use ais_pkg.Errors.Values.{ErrorCode, GoError, BizError, as_biz_error}
use ais_pkg.Errors.Grpc.{find}
use ais_pkg.Errors.Http.{
  HttpStatusConfig, to_http_response, biz_status, http_status_code, ask, or_else, or_500,
}
use ais_pkg.Response.Defs.{
  error_of, resp_json_with_status_code, internal_message, error, error_with_code,
  normalize_http_status_code,
}

-- A status code of the HTTP protocol.
abbrev pub InHttpRange : ℤ → Type 0
InHttpRange s = (pos 100 ≤ℤ s) × (s ≤ℤ pos 599)

abbrev pub AllowsRange : Option ℤ → Type 0
AllowsRange none = Unit {0}
AllowsRange (some s) = InHttpRange s

-- The registered overrides and the resolver give status codes of the protocol.
pub record KeepsRange (cfg : HttpStatusConfig) : Type 0 where
  pub overrides : All (λ o. InHttpRange o.1) cfg.overrides
  pub resolver : (c : ErrorCode) → AllowsRange (ask cfg.resolver c)

AllowsRange-if :
    (b : Bool) (s : ℤ) (o : Option ℤ)
    → InHttpRange s
    → AllowsRange o
    → AllowsRange (if b then some s else o)
AllowsRange-if true s o h k = h
AllowsRange-if false s o h k = k

AllowsRange-or_else : (a b : Option ℤ) → AllowsRange a → AllowsRange b → AllowsRange (or_else a b)
AllowsRange-or_else none b h k = k
AllowsRange-or_else (some s) b h k = h

or_500-InHttpRange : (o : Option ℤ) → AllowsRange o → InHttpRange (or_500 o)
or_500-InHttpRange none h = omega arith
or_500-InHttpRange (some s) h = h

find-AllowsRange :
    (c : ErrorCode) (m : List (ErrorCode × ℤ))
    → All (λ o. InHttpRange o.1) m
    → AllowsRange (find c m)
unfolding find
find-AllowsRange c [] h = tt
find-AllowsRange c ((k, s) ∷ m) h =
    AllowsRange-if (eqb_ℤ k c) s (find c m) h.0 (find-AllowsRange c m h.1)

table-InHttpRange : All (λ o. InHttpRange o.1) http_status_code
unfolding http_status_code
table-InHttpRange = omega arith

biz_status-InHttpRange :
    (cfg : HttpStatusConfig) (c : ErrorCode) → KeepsRange cfg → InHttpRange (biz_status cfg c)
unfolding biz_status
biz_status-InHttpRange cfg c k = or_500-InHttpRange _ (
    AllowsRange-or_else _ _
      (AllowsRange-or_else _ _ (find-AllowsRange c cfg.overrides k.overrides) (k.resolver c))
      (find-AllowsRange c http_status_code table-InHttpRange))

normalize-InHttpRange : (c : ℤ) → InHttpRange (normalize_http_status_code c)
unfolding normalize_http_status_code
normalize-InHttpRange c = ground arith

module _ (D : Type 0) (status_text : ℤ → Text) (cfg : HttpStatusConfig) where
  error_of-InHttpRange :
      (o : Option BizError)
      → KeepsRange cfg
      → InHttpRange (error_of {D = D} status_text cfg o).status
  unfolding resp_json_with_status_code to_http_response as_biz_error
  error_of-InHttpRange none k = normalize-InHttpRange (pos 500)
  error_of-InHttpRange (some b) k = biz_status-InHttpRange cfg b.code k

  -- The HTTP status of an error response is a status code of the protocol, for every error, if the
  -- registered overrides and the resolver give such codes.
  pub error-InHttpRange :
      (e : Option GoError) → KeepsRange cfg → InHttpRange (error {D = D} status_text cfg e).status
  unfolding error
  error-InHttpRange none k = normalize-InHttpRange (pos 200)
  error-InHttpRange (some e) k = error_of-InHttpRange (as_biz_error e) k

  -- Two errors with no BizError in their chains get the same responses, whatever they say: nothing
  -- of such an error is sent.
  pub plain_errors_alike :
      (c : ℤ) (e e' : GoError)
      → as_biz_error e ≡ none
      → as_biz_error e' ≡ none
      → (error {D = D} status_text cfg (some e) ≡ error status_text cfg (some e'))
        × (error_with_code {D = D} status_text cfg c (some e)
            ≡ error_with_code status_text cfg c (some e'))
  unfolding error error_with_code
  plain_errors_alike c e e' h h' = rw (h, h') (refl, refl)

  -- An error with no BizError in its chain that ErrorWithCode answers with a code of 500 or more,
  -- or with one below the protocol's range, is sent with the message for internal errors and a
  -- status of 500 to 599.
  pub plain_error_message :
      (c : ℤ) (e : GoError)
      → as_biz_error e ≡ none
      → (c <ℤ pos 100) ⊎ (pos 500 ≤ℤ c)
      → ((error_with_code {D = D} status_text cfg c (some e)).body.msg ≡ internal_message)
        × (pos 500 ≤ℤ (error_with_code {D = D} status_text cfg c (some e)).status)
        × ((error_with_code {D = D} status_text cfg c (some e)).status ≤ℤ pos 599)
  unfolding error_with_code
  plain_error_message c e h server = rw h (ground arith)
