-- ===== src/Errors/Values.antt =====
-- errors/errors.go: BizError, the chains that errors.Is and errors.As walk, and the codes.
use ais_pkg.Prelude.{Bool, false, ◌||◌, Option, some, none}
use ais_pkg.Prelude.Text.{Text}
use ais_pkg.Prelude.Int.{ℤ, pos, eqb_ℤ}

abbrev pub ErrorCode : Type 0
ErrorCode = ℤ

-- The `ErrCode…` constants.
abbrev pub code_unknown : ErrorCode
code_unknown = pos 1000

abbrev pub code_invalid_argument : ErrorCode
code_invalid_argument = pos 1001

abbrev pub code_not_found : ErrorCode
code_not_found = pos 1002

abbrev pub code_already_exists : ErrorCode
code_already_exists = pos 1003

abbrev pub code_permission_denied : ErrorCode
code_permission_denied = pos 1004

abbrev pub code_unauthenticated : ErrorCode
code_unauthenticated = pos 1005

abbrev pub code_internal : ErrorCode
code_internal = pos 1006

abbrev pub code_unavailable : ErrorCode
code_unavailable = pos 1007

abbrev pub code_timeout : ErrorCode
code_timeout = pos 1008

abbrev pub code_canceled : ErrorCode
code_canceled = pos 1009

-- The errors that the program tells apart. `biz` is a BizError without a cause and `biz_caused` one
-- with a cause, `wrapped` an error of fmt.Errorf with %w, `validation` a ValidationError of package
-- repository with its reason, `fiber` a fiber.Error, `grpc_status` an error of package status. The
-- trees of errors.Join and of several %w are not among them.
pub data GoError : Type 0 where
  biz : ErrorCode → Text → GoError
  biz_caused : ErrorCode → Text → GoError → GoError
  wrapped : Text → GoError → GoError
  fiber : ℤ → Text → GoError
  grpc_status : ℤ → Text → GoError
  validation : Text → GoError
  record_not_found deadline_exceeded context_canceled : GoError
  other : Text → GoError

-- BizError
pub record BizError : Type 0 where
  pub code : ErrorCode
  pub message : Text
  pub cause : Option GoError

-- errors.As(err, &bizErr), and AsBizError for an error that is not nil
unfoldable pub as_biz_error : GoError → Option BizError
as_biz_error (biz c m) = some (record { code = c; message = m; cause = none })
as_biz_error (biz_caused c m cause) = some (record { code = c; message = m; cause = some cause })
as_biz_error (wrapped m e) = as_biz_error e
as_biz_error _ = none

-- errors.Is(err, target) for a target that is a BizError with the code `c`: BizError.Is compares
-- codes, and the walk goes on through Unwrap.
unfoldable pub is_code : ErrorCode → GoError → Bool
is_code c (biz d m) = eqb_ℤ d c
is_code c (biz_caused d m cause) = let rest = is_code c cause in eqb_ℤ d c || rest
is_code c (wrapped m e) = is_code c e
is_code c _ = false

abbrev pub code_or_unknown : Option BizError → ErrorCode
code_or_unknown none = code_unknown
code_or_unknown (some b) = b.code

-- Code
unfoldable pub code : GoError → ErrorCode
code e = code_or_unknown (as_biz_error e)

-- IsNotFound
unfoldable pub is_not_found : GoError → Bool
unfolding code
is_not_found e = eqb_ℤ (code e) code_not_found
