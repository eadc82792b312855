-- ===== src/Tests/Errors.antt =====
-- errors/errors.go and response/response.go on concrete errors.
use ais_pkg.Prelude.{false, is_empty, ℕ, ◌≡◌, refl, arith, [], ◌∷◌, Option, some, none}
use ais_pkg.Prelude.Text.{Text}
use ais_pkg.Prelude.Int.{ℤ, pos}
use ais_pkg.Errors.Values.{
  fiber, code_not_found, GoError, BizError, biz, biz_caused, wrapped, grpc_status, as_biz_error,
  other,
}
use ais_pkg.Errors.Grpc.{to_grpc_error, from_grpc_error}
use ais_pkg.Errors.Http.{HttpStatusConfig, to_http_response}
use ais_pkg.Errors.Laws.{grpc_round_trip, wrap_all, cause_hidden}
use ais_pkg.Response.Defs.{error}
use ais_pkg.Response.Handler.{find_fiber, error_handler, error_handler-fiber}
use ais_pkg.Response.Laws.{InHttpRange, KeepsRange, error-InHttpRange}

abbrev text : Text
text = b'm' ∷ []

-- An error of fmt.Errorf around a BizError.
abbrev missing : GoError
missing = wrapped text (biz code_not_found text)

abbrev missing_biz : BizError
missing_biz = record { code = code_not_found; message = text; cause = none }

missing_found : as_biz_error missing ≡ some missing_biz
unfolding as_biz_error
missing_found = refl

abbrev status_of : GoError → Option (ℤ × Text)
status_of (grpc_status c m) = some (c, m)
status_of _ = none

grpc_round_trip_example :
    from_grpc_error status_of (to_grpc_error missing) ≡ biz code_not_found text
grpc_round_trip_example = grpc_round_trip status_of missing missing_biz (λ c m. refl) missing_found

abbrev no_overrides : HttpStatusConfig
no_overrides = record { overrides = []; resolver = none }

cause_hidden_example :
    (to_http_response no_overrides
        (some (wrap_all (text ∷ []) (biz_caused code_not_found text (other text))))
      ≡ to_http_response no_overrides (some (biz code_not_found text)))
    × (to_grpc_error (wrap_all (text ∷ []) (biz_caused code_not_found text (other text)))
        ≡ to_grpc_error (biz code_not_found text))
cause_hidden_example = cause_hidden no_overrides (text ∷ []) code_not_found text (other text)

abbrev gone : HttpStatusConfig
gone = record { overrides = (code_not_found, pos 410) ∷ []; resolver = none }

gone_keeps : KeepsRange gone
gone_keeps = record { overrides = (omega arith, tt); resolver = λ c. tt }

abbrev status_text : ℤ → Text
status_text s = []

error-InHttpRange_example : InHttpRange (error {D = ℕ} status_text gone (some missing)).status
error-InHttpRange_example = error-InHttpRange ℕ status_text gone (some missing) gone_keeps

plain_none : as_biz_error (other text) ≡ none
unfolding as_biz_error
plain_none = refl

wrapped_none : as_biz_error (wrapped text (other [])) ≡ none
unfolding as_biz_error
wrapped_none = refl

abbrev internal : ℤ → Text
internal s = b'i' ∷ []

teapot : find_fiber (fiber (pos 418) []) ≡ some (pos 418, [])
unfolding find_fiber
teapot = refl

error_handler-fiber_example :
    ((error_handler {D = ℕ} internal gone
        (biz_caused code_not_found text (fiber (pos 418) []))).status
      ≡ pos 418)
    × (is_empty
          (error_handler {D = ℕ} internal gone
            (biz_caused code_not_found text (fiber (pos 418) []))).body.msg
        ≡ false)
error_handler-fiber_example =
    error_handler-fiber ℕ internal gone (fiber (pos 418) []) (pos 418) [] code_not_found text teapot
      refl
