-- ===== src/Errors/Laws.antt =====
-- What the conversions of errors keep, and what they hide.
use ais_pkg.Prelude.{
  Bool, true, ◌≡◌, refl, ap, arith, Option, some, List, [], ◌∷◌, ◌&&◌, if◌then◌else◌,
}
use ais_pkg.Prelude.Text.{Text}
use ais_pkg.Prelude.Int.{ℤ, pos, negsuc, eqb_ℤ, leb_ℤ}
use ais_pkg.Errors.Values.{
  ErrorCode, code_invalid_argument, code_canceled, code_internal, GoError, BizError, biz,
  biz_caused, wrapped, grpc_status, as_biz_error, is_code, code,
}
use ais_pkg.Errors.Grpc.{
  find, error_code_to_grpc_code, to_grpc_error, from_grpc_error, grpc_code_to_error_code, or_int,
}
use ais_pkg.Errors.Http.{HttpStatusConfig, register_http_status, to_http_response, biz_status}

-- A code from ErrCodeInvalidArgument to ErrCodeCanceled.
abbrev pub is_specific : ErrorCode → Bool
is_specific c = leb_ℤ code_invalid_argument c && leb_ℤ c code_canceled

-- The table of gRPC codes and the switch back undo each other on the specific codes; every other
-- code comes back as the internal one.
code_round_trip :
    (c : ErrorCode)
    → grpc_code_to_error_code (or_int (pos 2) (find c error_code_to_grpc_code))
      ≡ (if is_specific c then c else code_internal)
unfolding grpc_code_to_error_code error_code_to_grpc_code find
code_round_trip (pos n) = ground arith
code_round_trip (negsuc n) = ground arith

-- A BizError that goes out as a gRPC error and is read back keeps its message, and keeps its code
-- if it is one of ErrCodeInvalidArgument to ErrCodeCanceled; with any other code, ErrCodeUnknown
-- among them, it comes back as an internal error. Here status.FromError reads back what
-- status.Error made.
pub grpc_round_trip :
    (from_error : GoError → Option (ℤ × Text)) (e : GoError) (b : BizError)
    → ((c : ℤ) (m : Text) → from_error (grpc_status c m) ≡ some (c, m))
    → as_biz_error e ≡ some b
    → from_grpc_error from_error (to_grpc_error e)
      ≡ biz (if is_specific b.code then b.code else code_internal) b.message
unfolding from_grpc_error to_grpc_error
grpc_round_trip from_error e b reads h =
    rw (h, reads) (ap (λ c. biz c b.message) (code_round_trip b.code))

-- After RegisterHTTPStatus a BizError with that code, anywhere in the chain as the first one, is
-- answered with the new status, and every other one as before.
pub register-response :
    (c : ErrorCode) (s : ℤ) (cfg : HttpStatusConfig) (e : GoError) (b : BizError)
    → as_biz_error e ≡ some b
    → (to_http_response (register_http_status c s cfg) (some e)).0
      ≡ (if eqb_ℤ c b.code then s else (to_http_response cfg (some e)).0)
unfolding to_http_response register_http_status biz_status find
register-response c s cfg e b h = rw h (ground arith)

-- errors wrapped by fmt.Errorf, outermost first
abbrev pub wrap_all : List Text → GoError → GoError
wrap_all [] e = e
wrap_all (m ∷ ms) e = wrapped m (wrap_all ms e)

as_biz_error-wrap_all :
    (ms : List Text) (e : GoError) → as_biz_error (wrap_all ms e) ≡ as_biz_error e
unfolding as_biz_error
as_biz_error-wrap_all [] e = refl
as_biz_error-wrap_all (m ∷ ms) e = as_biz_error-wrap_all ms e

-- However deep a BizError is wrapped by fmt.Errorf, and whatever its cause is, ToHTTPResponse and
-- ToGRPCError give what they give for a BizError with its code and message and no cause.
pub cause_hidden :
    (cfg : HttpStatusConfig) (ms : List Text) (c : ErrorCode) (m : Text) (cause : GoError)
    → (to_http_response cfg (some (wrap_all ms (biz_caused c m cause)))
        ≡ to_http_response cfg (some (biz c m)))
      × (to_grpc_error (wrap_all ms (biz_caused c m cause)) ≡ to_grpc_error (biz c m))
unfolding to_http_response to_grpc_error as_biz_error
cause_hidden cfg ms c m cause = rw (as_biz_error-wrap_all ms (biz_caused c m cause)) (refl, refl)

-- The code that Code reads off is one that errors.Is finds in the chain, so that an error for which
-- IsNotFound holds matches ErrNotFound.
pub is_code-code :
    (e : GoError) (b : BizError) → as_biz_error e ≡ some b → is_code (code e) e ≡ true
unfolding is_code code as_biz_error
is_code-code (wrapped m e) b h = is_code-code e b h
is_code-code _ b h = ground arith
