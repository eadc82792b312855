-- ===== src/Response/Defs.antt =====
-- response/response.go: the JSON responses. `status_text` stands for http.StatusText.
use ais_pkg.Prelude.{not, ◌||◌, Option, some, none, if◌then◌else◌, is_empty}
use ais_pkg.Prelude.Text.{Text, codes}
use ais_pkg.Prelude.Int.{ℤ, pos, ltb_ℤ, leb_ℤ, eqb_ℤ}
use ais_pkg.Errors.Values.{GoError, BizError, biz, as_biz_error}
use ais_pkg.Errors.Http.{HttpStatusConfig, to_http_response}

-- The field Data of Result: `&struct{}{}`, or a value of the caller.
pub data Data (D : Type 0) : Type 0 where
  empty_struct : Data D
  given : D → Data D

-- Result
pub record Result (D : Type 0) : Type 0 where
  pub code : ℤ
  pub msg : Text
  pub result_data : Data D

-- What a handler sends: the HTTP status and the JSON body.
pub record Sent (D : Type 0) : Type 0 where
  pub status : ℤ
  pub body : Result D

abbrev pub data_of : {D : Type 0} → Option D → Data D
data_of none = empty_struct
data_of (some d) = given d

-- newResp
unfoldable pub new_resp : {D : Type 0} → ℤ → Text → Option D → Result D
new_resp code msg content = record { code = code; msg = msg; result_data = data_of content }

-- normalizeHTTPStatusCode
unfoldable pub normalize_http_status_code : ℤ → ℤ
normalize_http_status_code code =
    if ltb_ℤ (pos 599) code || ltb_ℤ code (pos 100) then pos 500 else code

abbrev pub internal_message : Text
internal_message = codes "internal error"

-- safeErrorMessage
unfoldable pub safe_error_message : (ℤ → Text) → ℤ → Text
unfolding normalize_http_status_code
safe_error_message status_text code =
    let http_code = normalize_http_status_code code in
    if leb_ℤ (pos 500) http_code
    then internal_message
    else if not (is_empty (status_text http_code))
    then status_text http_code
    else internal_message

module _ {D : Type 0} where
  -- respJSONWithStatusCode
  unfoldable pub resp_json_with_status_code : ℤ → Text → Option D → Sent D
  unfolding new_resp normalize_http_status_code
  resp_json_with_status_code code msg content = record {
    status = normalize_http_status_code code;
    body = new_resp code msg content;
  }

  -- Ok, OkWithData, OkWithMsg and Success
  unfoldable pub success : Text → Option D → Sent D
  unfolding resp_json_with_status_code
  success msg content = resp_json_with_status_code (pos 200) msg content

  -- c.Status(status).JSON(Result{Code, Msg, Data: &struct{}{}})
  abbrev pub bare : ℤ → ℤ → Text → Sent D
  bare status code msg = record {
    status = status;
    body = record { code = code; msg = msg; result_data = empty_struct };
  }

  abbrev pub error_of : (ℤ → Text) → HttpStatusConfig → Option BizError → Sent D
  error_of status_text cfg none =
      resp_json_with_status_code (pos 500) (safe_error_message status_text (pos 500)) none
  error_of status_text cfg (some b) =
      bare (to_http_response cfg (some (biz b.code b.message))).0 b.code b.message

  -- Error; `none` is a nil error
  unfoldable pub error : (ℤ → Text) → HttpStatusConfig → Option GoError → Sent D
  unfolding resp_json_with_status_code safe_error_message success
  error status_text cfg none = success (codes "ok") none
  error status_text cfg (some e) = error_of status_text cfg (as_biz_error e)

  abbrev pub error_with_code_of : (ℤ → Text) → HttpStatusConfig → ℤ → Option BizError → Sent D
  error_with_code_of status_text cfg code none =
      resp_json_with_status_code code (safe_error_message status_text code) none
  error_with_code_of status_text cfg code (some b) =
      bare
        (if not (eqb_ℤ code (pos 500))
          then code
          else (to_http_response cfg (some (biz b.code b.message))).0)
        b.code b.message

  -- ErrorWithCode
  unfoldable pub error_with_code : (ℤ → Text) → HttpStatusConfig → ℤ → Option GoError → Sent D
  unfolding resp_json_with_status_code safe_error_message
  error_with_code status_text cfg code none = bare code code (codes "ok")
  error_with_code status_text cfg code (some e) =
      error_with_code_of status_text cfg code (as_biz_error e)

  -- ErrorWithMsg
  unfoldable pub error_with_msg : Text → Sent D
  unfolding resp_json_with_status_code
  error_with_msg msg = resp_json_with_status_code (pos 500) msg none

  -- BadRequest
  unfoldable pub bad_request : Text → Sent D
  unfolding resp_json_with_status_code
  bad_request msg = resp_json_with_status_code (pos 400) msg none

  -- Unauthorized
  unfoldable pub unauthorized : Text → Sent D
  unfolding resp_json_with_status_code
  unauthorized msg = resp_json_with_status_code (pos 401) msg none

  -- Forbidden
  unfoldable pub forbidden : Text → Sent D
  unfolding resp_json_with_status_code
  forbidden msg = resp_json_with_status_code (pos 403) msg none

  -- NotFound
  unfoldable pub not_found : Text → Sent D
  unfolding resp_json_with_status_code
  not_found msg = resp_json_with_status_code (pos 404) msg none

  -- InternalError
  unfoldable pub internal_error : Text → Sent D
  unfolding resp_json_with_status_code
  internal_error msg = resp_json_with_status_code (pos 500) msg none

  -- ServiceUnavailable
  unfoldable pub service_unavailable : Text → Sent D
  unfolding resp_json_with_status_code
  service_unavailable msg = resp_json_with_status_code (pos 503) msg none
