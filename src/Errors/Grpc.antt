-- ===== src/Errors/Grpc.antt =====
-- errors/errors.go: ToGRPCError and FromGRPCError.
use ais_pkg.Prelude.{Option, some, none, List, [], ◌∷◌, if◌then◌else◌}
use ais_pkg.Prelude.Text.{Text, codes}
use ais_pkg.Prelude.Int.{ℤ, pos, eqb_ℤ}
use ais_pkg.Errors.Values.{
  ErrorCode, code_unknown, code_invalid_argument, code_not_found, code_already_exists,
  code_permission_denied, code_unauthenticated, code_internal, code_unavailable, code_timeout,
  code_canceled, GoError, biz, biz_caused, grpc_status, BizError, as_biz_error,
}

-- m[k] for a map with integer keys
unfoldable pub find : {A : Type 0} → ℤ → List (ℤ × A) → Option A
find k [] = none
find k ((j, a) ∷ m) = if eqb_ℤ j k then some a else find k m

-- errorCodeToGRPCCode, with the numbers of the gRPC codes
unfoldable pub error_code_to_grpc_code : List (ErrorCode × ℤ)
error_code_to_grpc_code =
    (code_unknown, pos 2)
    ∷ (code_invalid_argument, pos 3)
    ∷ (code_not_found, pos 5)
    ∷ (code_already_exists, pos 6)
    ∷ (code_permission_denied, pos 7)
    ∷ (code_unauthenticated, pos 16)
    ∷ (code_internal, pos 13)
    ∷ (code_unavailable, pos 14)
    ∷ (code_timeout, pos 4)
    ∷ (code_canceled, pos 1)
    ∷ []

abbrev pub or_int : ℤ → Option ℤ → ℤ
or_int d none = d
or_int d (some n) = n

abbrev pub grpc_error_of : Option BizError → GoError
grpc_error_of none = grpc_status (pos 13) (codes "internal server error")
grpc_error_of (some b) =
    grpc_status (or_int (pos 2) (find b.code error_code_to_grpc_code)) b.message

-- ToGRPCError of an error that is not nil
unfoldable pub to_grpc_error : GoError → GoError
unfolding error_code_to_grpc_code find
to_grpc_error e = grpc_error_of (as_biz_error e)

-- The switch of FromGRPCError.
unfoldable pub grpc_code_to_error_code : ℤ → ErrorCode
grpc_code_to_error_code c =
    if eqb_ℤ c (pos 3)
    then code_invalid_argument
    else if eqb_ℤ c (pos 5)
    then code_not_found
    else if eqb_ℤ c (pos 6)
    then code_already_exists
    else if eqb_ℤ c (pos 7)
    then code_permission_denied
    else if eqb_ℤ c (pos 16)
    then code_unauthenticated
    else if eqb_ℤ c (pos 14)
    then code_unavailable
    else if eqb_ℤ c (pos 4)
    then code_timeout
    else if eqb_ℤ c (pos 1)
    then code_canceled
    else code_internal

abbrev pub from_status : GoError → Option (ℤ × Text) → GoError
from_status e none = biz_caused code_unknown (codes "unknown error") e
from_status e (some (c, m)) = biz (grpc_code_to_error_code c) m

-- FromGRPCError of an error that is not nil; `from_error` stands for status.FromError, which gives
-- the code and the message of an error that holds a status.
unfoldable pub from_grpc_error : (GoError → Option (ℤ × Text)) → GoError → GoError
unfolding grpc_code_to_error_code
from_grpc_error from_error e = from_status e (from_error e)
