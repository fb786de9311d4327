-- ===== src/Errors.antt =====
-- src/server/errors.ts: the failures of the engine as HTTP statuses and bodies, for both protocols.
pub mod Tables
pub mod Examples
use agy_proxy.Prelude.{
  ℕ, ◌+◌, ◌/◌, max, Bool, true, false, ◌&&◌, ◌||◌, List, [], ◌∷◌, Option, none, some, Text, codes,
  eq_text, starts_with, index_of, leb, ◌==◌, if◌then◌else◌,
}
use agy_proxy.Mapper.{decimal}

-- A message, a type and a code; the param is always null.
pub record OpenAiErrorBody : Type 0 where
  pub message : Text
  pub type : Text
  pub code : Text
  pub param : Option Text

-- The type `error` stands at the top of every body.
pub record AnthropicErrorBody : Type 0 where
  pub type : Text
  pub message : Text
  pub request_id : Option Text

pub data ErrorBody : Type 0 where
  openai_body : OpenAiErrorBody → ErrorBody
  anthropic_body : AnthropicErrorBody → ErrorBody

-- The only header that is set is Retry-After.
pub record GatewayHttpError : Type 0 where
  pub status_code : ℕ
  pub body : ErrorBody
  pub retry_after : Option Text

pub record Status : Type 0 where
  pub status_code : ℕ
  pub type : Text

unfoldable pub open_ai_error : Text → Text → Text → OpenAiErrorBody
open_ai_error message type code = record {
  message = message;
  type = type;
  code = code;
  param = none;
}

unfoldable pub http_error : ℕ → Text → Text → Text → GatewayHttpError
unfolding open_ai_error
http_error status_code message type code = record {
  status_code = status_code;
  body = openai_body (open_ai_error message type code);
  retry_after = none;
}

is_one_of : Text → List Text → Bool
is_one_of code [] = false
is_one_of code (c ∷ rest) = eq_text code c || is_one_of code rest

status : ℕ → Text → Status
status status_code type = record { status_code = status_code; type = type }

unfoldable pub error_status : Text → Status
unfolding is_one_of status
error_status code =
    if eq_text code (codes "AUTH")
    then status 401 (codes "authentication_error")
    else if eq_text code (codes "UNKNOWN_MODEL")
    then status 404 (codes "invalid_request_error")
    else if is_one_of code (codes "BUSY" ∷ codes "POOL_EXHAUSTED" ∷ [])
    then status 429 (codes "rate_limit_error")
    else if is_one_of code (codes "VALIDATION_REQUIRED" ∷ codes "MODEL_NOT_ALLOWED" ∷ [])
    then status 403 (codes "permission_error")
    else if eq_text code (codes "UNSUPPORTED_REASONING_EFFORT")
    then status 400 (codes "invalid_request_error")
    else if is_one_of code (codes "AGY_NOT_INSTALLED" ∷ codes "ABORTED" ∷ [])
    then status 503 (codes "api_error")
    else if is_one_of code (
        codes "TIMEOUT"
        ∷ codes "PROCESS_EXIT"
        ∷ codes "INVALID_OUTPUT"
        ∷ codes "AGY_ERROR"
        ∷ codes "AGY_VERSION_UNSUPPORTED"
        ∷ [])
    then status 502 (codes "api_error")
    else status 500 (codes "api_error")

-- `/i` on the ASCII letters of the expression.
lower : ℕ → ℕ
lower c = if leb 65 c && leb c 90 then c + 32 else c

lowered : Text → Text
unfolding lower
lowered [] = []
lowered (c ∷ text) = lower c ∷ lowered text

-- `/overloaded/i.test(message)`
unfoldable pub is_overloaded : Text → Bool
unfolding lowered
is_overloaded message = elim (index_of (lowered message) (codes "overloaded")) [
  | none ↦ false
  | some _ ↦ true
]

unfoldable pub anthropic_status_for : Text → Text → Status
unfolding is_one_of status
anthropic_status_for code message =
    if is_overloaded message
    then status 529 (codes "overloaded_error")
    else if eq_text code (codes "AUTH")
    then status 401 (codes "authentication_error")
    else if eq_text code (codes "UNKNOWN_MODEL")
    then status 404 (codes "not_found_error")
    else if is_one_of code (codes "BUSY" ∷ codes "POOL_EXHAUSTED" ∷ [])
    then status 429 (codes "rate_limit_error")
    else if is_one_of code (codes "VALIDATION_REQUIRED" ∷ codes "MODEL_NOT_ALLOWED" ∷ [])
    then status 403 (codes "permission_error")
    else if eq_text code (codes "UNSUPPORTED_REASONING_EFFORT")
    then status 400 (codes "invalid_request_error")
    else if is_one_of code (codes "AGY_NOT_INSTALLED" ∷ codes "ABORTED" ∷ [])
    then status 503 (codes "api_error")
    else if is_one_of code (
        codes "TIMEOUT"
        ∷ codes "PROCESS_EXIT"
        ∷ codes "INVALID_OUTPUT"
        ∷ codes "AGY_ERROR"
        ∷ codes "AGY_VERSION_UNSUPPORTED"
        ∷ [])
    then status 502 (codes "api_error")
    else status 500 (codes "api_error")

unfoldable pub engine_failure_to_http : Text → Text → Option Text → GatewayHttpError
engine_failure_to_http message code retry_after = record {
  status_code = (error_status code).status_code;
  body = openai_body (open_ai_error message (error_status code).type code);
  retry_after = retry_after;
}

unfoldable pub anthropic_error : Text → Text → Option Text → AnthropicErrorBody
anthropic_error type message request_id = record {
  type = type;
  message = message;
  request_id = request_id;
}

unfoldable pub stamp_request_id : ErrorBody → Text → ErrorBody
stamp_request_id (anthropic_body b) id = anthropic_body (record b { request_id = some id })
stamp_request_id (openai_body b) id = openai_body b

-- `url.split('?')[0]`
unfoldable pub before_query : Text → Text
before_query [] = []
before_query (c ∷ url) = let rest = before_query url in if c == 63 then [] else c ∷ rest

unfoldable pub is_anthropic_path : Text → Bool
unfolding before_query
is_anthropic_path url =
    starts_with (before_query url) (codes "/v1/messages")
    || starts_with (before_query url) (codes "/v1/anthropic/")

unfoldable pub engine_failure_to_anthropic : Text → Text → Option Text → GatewayHttpError
engine_failure_to_anthropic message code retry_after = record {
  status_code = (anthropic_status_for code message).status_code;
  body = anthropic_body (anthropic_error (anthropic_status_for code message).type message none);
  retry_after = retry_after;
}

unfoldable pub auth_error_for : Text → Text → Option Text → GatewayHttpError
auth_error_for url message request_id =
    if is_anthropic_path url
    then record {
      status_code = 401;
      body = anthropic_body (anthropic_error (codes "authentication_error") message request_id);
      retry_after = none;
    }
    else http_error 401 message (codes "authentication_error") (codes "invalid_api_key")

-- `retry_after_ms` is the source's `retryAfterSec` in thousandths, so that rounding shows.
unfoldable pub quota_reject_for : Text → Text → ℕ → Option Text → GatewayHttpError
quota_reject_for url message retry_after_ms request_id =
    let seconds = some (decimal (max 1 ((retry_after_ms + 500) / 1000))) in
    if is_anthropic_path url
    then record {
      status_code = 429;
      body = anthropic_body (anthropic_error (codes "rate_limit_error") message request_id);
      retry_after = seconds;
    }
    else record {
      status_code = 429;
      body =
          openai_body
            (open_ai_error message (codes "rate_limit_error") (codes "rate_limit_exceeded"));
      retry_after = seconds;
    }
