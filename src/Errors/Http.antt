-- ===== src/Errors/Http.antt =====
-- errors/errors.go: the HTTP status of an error, with the registered overrides and the resolver.
use ais_pkg.Prelude.{Option, some, none, List, [], ◌∷◌}
use ais_pkg.Prelude.Text.{Text, codes}
use ais_pkg.Prelude.Int.{ℤ, pos}
use ais_pkg.Errors.Grpc.{find}
use ais_pkg.Errors.Values.{
  ErrorCode, code_unknown, code_invalid_argument, code_not_found, code_already_exists,
  code_permission_denied, code_unauthenticated, code_internal, code_unavailable, code_timeout,
  code_canceled, GoError, BizError, as_biz_error,
}

-- The package variables behind httpStatusMu. The logger is not part of any result.
pub record HttpStatusConfig : Type 0 where
  pub overrides : List (ErrorCode × ℤ)
  pub resolver : Option (ErrorCode → Option ℤ)

-- RegisterHTTPStatus
unfoldable pub register_http_status : ErrorCode → ℤ → HttpStatusConfig → HttpStatusConfig
register_http_status code status cfg = record cfg { overrides = (code, status) ∷ cfg.overrides }

-- SetHTTPStatusResolver
unfoldable pub set_http_status_resolver :
    Option (ErrorCode → Option ℤ) → HttpStatusConfig → HttpStatusConfig
set_http_status_resolver resolver cfg = record cfg { resolver = resolver }

-- httpStatusCode
unfoldable pub http_status_code : List (ErrorCode × ℤ)
http_status_code =
    (code_unknown, pos 500)
    ∷ (code_invalid_argument, pos 400)
    ∷ (code_not_found, pos 404)
    ∷ (code_already_exists, pos 409)
    ∷ (code_permission_denied, pos 403)
    ∷ (code_unauthenticated, pos 401)
    ∷ (code_internal, pos 500)
    ∷ (code_unavailable, pos 503)
    ∷ (code_timeout, pos 504)
    ∷ (code_canceled, pos 499)
    ∷ []

abbrev pub ask : Option (ErrorCode → Option ℤ) → ErrorCode → Option ℤ
ask none code = none
ask (some resolver) code = resolver code

abbrev pub or_else : Option ℤ → Option ℤ → Option ℤ
or_else none b = b
or_else (some s) b = some s

-- resolveHTTPStatus
unfoldable pub resolve_http_status : HttpStatusConfig → ErrorCode → Option ℤ
resolve_http_status cfg code = or_else (find code cfg.overrides) (ask cfg.resolver code)

abbrev pub or_500 : Option ℤ → ℤ
or_500 none = pos 500
or_500 (some s) = s

-- The body {"code": …, "msg": …} of a response.
pub record Body : Type 0 where
  pub code : ℤ
  pub msg : Text

-- The status code of a BizError, as ToHTTPResponse finds it.
unfoldable pub biz_status : HttpStatusConfig → ErrorCode → ℤ
unfolding resolve_http_status
biz_status cfg code = or_500 (or_else (resolve_http_status cfg code) (find code http_status_code))

abbrev pub http_response_of : HttpStatusConfig → Option BizError → ℤ × Body
http_response_of cfg none =
    (pos 500, record { code = pos 500; msg = codes "internal server error" })
http_response_of cfg (some b) = (biz_status cfg b.code, record { code = b.code; msg = b.message })

-- ToHTTPResponse; `none` is a nil error
unfoldable pub to_http_response : HttpStatusConfig → Option GoError → ℤ × Body
to_http_response cfg none = (pos 200, record { code = pos 0; msg = codes "success" })
to_http_response cfg (some e) = http_response_of cfg (as_biz_error e)
