-- ===== src/Auth.antt =====
-- The authentication of src/server/auth.ts: the key of a request, and the verdicts of the hook.
--
-- The table of rate limiters is the third-party package's, and an argument. Times are arguments too.
pub mod Verdicts
pub mod Examples
use agy_proxy.Prelude.{
  ℕ, suc, ◌+◌, ◌-◌, ◌*◌, ◌/◌, max, Bool, true, false, not, ◌&&◌, ◌||◌, List, [], ◌∷◌, ◌++◌, Option,
  none, some, Text, codes, length, take, drop, ltb, leb, ◌==◌, eq_text, if◌then◌else◌,
}
use agy_proxy.Mapper.{decimal}
use agy_proxy.Tokens.{is_space}
use agy_proxy.Errors.{
  GatewayHttpError, AnthropicErrorBody, ErrorBody, anthropic_body, openai_body, anthropic_error,
  http_error, is_anthropic_path, auth_error_for, quota_reject_for,
}
use agy_proxy.Keys
use agy_proxy.Keys.{ApiKeyRecord, KeyStore, KeyVerifyResult, ok, unknown, disabled, verify, touch}
use agy_proxy.Ledger.{UsageLedger, tokens_used_today}

-- A header as Node gives it.
pub data HeaderValue : Type 0 where
  absent : HeaderValue
  single : Text → HeaderValue
  multiple : List Text → HeaderValue

pub record Headers : Type 0 where
  pub authorization : Option Text
  pub x_api_key : HeaderValue

-- A letter as the `i` flag compares it with a small one.
lower : ℕ → ℕ
lower c = if leb 65 c && leb c 90 then c + 32 else c

-- The rest of the text after the letters, in whatever case.
after_word : Text → Text → Option Text
unfolding lower
after_word [] s = some s
after_word (x ∷ word) [] = none
after_word (x ∷ word) (c ∷ s) =
    let later = after_word word s in if lower c == x then later else none

skip_space : Text → Text
unfolding is_space
skip_space [] = []
skip_space (c ∷ s) = let later = skip_space s in if is_space c then later else c ∷ s

has_space : Text → Bool
unfolding is_space
has_space [] = false
has_space (c ∷ s) = is_space c || has_space s

token : Text → Option Text
unfolding has_space
token [] = none
token (c ∷ s) = if has_space (c ∷ s) then none else some (c ∷ s)

after_bearer : Option Text → Option Text
unfolding token skip_space is_space
after_bearer none = none
after_bearer (some []) = none
after_bearer (some (c ∷ s)) = let found = token (skip_space s) in if is_space c then found else none

-- `/^Bearer\s+(\S+)$/i`
unfoldable pub bearer_token : Option Text → Option Text
unfolding after_bearer after_word
bearer_token none = none
bearer_token (some header) = after_bearer (after_word (codes "bearer") header)

first_filled : (Text → Text) → List Text → Option Text
first_filled trim [] = none
first_filled trim (v ∷ values) =
    let later = first_filled trim values in if eq_text (trim v) [] then later else some (trim v)

or_bearer : Option Text → Option Text → Option Text
or_bearer none header = bearer_token header
or_bearer (some key) header = some key

unfoldable pub api_key_from : (Text → Text) → Headers → Option Text
unfolding first_filled or_bearer
api_key_from trim headers = elim headers.x_api_key [
  | absent ↦ bearer_token headers.authorization
  | single v ↦ or_bearer (first_filled trim (v ∷ [])) headers.authorization
  | multiple values ↦ or_bearer (first_filled trim values) headers.authorization
]

-- The compared digests have one length.
unfoldable pub key_matches : Keys.Host → Text → Text → Bool
key_matches host expected provided = eq_text (host.hash_key expected) (host.hash_key provided)

pub data Reply : Type 0 where
  admitted : Option Text → Text → Reply
  rejected : GatewayHttpError → Reply

pub record Request : Type 0 where
  pub url : Text
  pub headers : Headers
  pub id : Option Text

-- What the hook asks the clock, the database and the formats for.
pub record Moment : Type 0 where
  pub now : ℕ
  pub db_sum : ℕ
  pub midnight : ℕ
  pub reset_ms : ℕ
  pub reset_at : Text
  -- What the limiter of the key answers: nothing if it has a point, or the time until it has one.
  pub wait_ms : Option ℕ

unfoldable pub seconds_up : ℕ → ℕ
seconds_up ms = max 1 ((ms + 999) / 1000)

invalid_key : Request → Reply
invalid_key request =
    rejected (auth_error_for request.url (codes "Invalid API key provided.") request.id)

missing_key : Request → Reply
missing_key request = rejected (
    auth_error_for request.url
      (codes "Missing API key. Pass it as `Authorization: Bearer <key>` or `x-api-key: <key>`.")
      request.id)

key_disabled : Request → ApiKeyRecord → Reply
key_disabled request key =
    let message = codes "API key '" ++ (key.prefix ++ codes "…' is disabled.") in
    rejected (
      if is_anthropic_path request.url
      then record {
        status_code = 403;
        body = anthropic_body (anthropic_error (codes "permission_error") message request.id);
        retry_after = none;
      }
      else http_error 403 message (codes "permission_error") (codes "key_disabled"))

over_rate : Request → ApiKeyRecord → ℕ → Reply
over_rate request key wait_ms =
    let sec = seconds_up wait_ms in
    rejected (
      quota_reject_for request.url
        (codes "Requests per-minute limit reached for this key (rpm="
          ++ (decimal key.rpm_limit ++ (codes "). Retry in " ++ (decimal sec ++ codes "s."))))
        (sec * 1000) request.id)

over_budget : Request → ApiKeyRecord → Moment → ℕ → Reply
over_budget request key m used =
    let sec = seconds_up m.reset_ms in
    rejected (
      quota_reject_for request.url
        (codes "Daily token limit reached for this key: used "
          ++ (decimal used
              ++ (codes " of "
                  ++ (decimal key.daily_token_limit
                      ++ (codes " tokens (daily_token_limit). Resets at "
                          ++ (m.reset_at ++ (codes " (in " ++ (decimal sec ++ codes "s)."))))))))
        (sec * 1000) request.id)

-- The stores that the hook reads and writes; `consumed` are the limiters that a point was taken from.
pub record Gate : Type 0 where
  pub keys : Option KeyStore
  pub ledger : Option UsageLedger
  pub consumed : List Text

-- `${keyId}:${rpm}`
limiter_key : ApiKeyRecord → Text
limiter_key key = key.id ++ (58 ∷ decimal key.rpm_limit)

admit : ApiKeyRecord → Moment → Gate → Reply × Gate
admit key m g = (
  admitted (some key.id) key.name,
  record g { keys = elim g.keys [ none ↦ none | some s ↦ some (touch key.id m.now s) ] },
)

judge_budget : Request → ApiKeyRecord → Moment → Option UsageLedger → Gate → Reply × Gate
unfolding over_budget admit
judge_budget request key m none g = admit key m g
judge_budget request key m (some l) g =
    let used = tokens_used_today key.id m.db_sum m.midnight l in
    let read : Gate = record g { ledger = some used.1 } in
    let admits = admit key m read in
    if leb key.daily_token_limit used.0 then (over_budget request key m used.0, read) else admits

check_budget : Request → ApiKeyRecord → Moment → Gate → Reply × Gate
unfolding judge_budget
check_budget request key m g =
    let judged = judge_budget request key m g.ledger g in
    let free = admit key m g in if ltb 0 key.daily_token_limit then judged else free

judge_rate : Request → ApiKeyRecord → Moment → Option ℕ → Gate → Reply × Gate
unfolding over_rate check_budget
judge_rate request key m none g = check_budget request key m g
judge_rate request key m (some wait_ms) g = (over_rate request key wait_ms, g)

check_rate : Request → ApiKeyRecord → Moment → Gate → Reply × Gate
unfolding judge_rate limiter_key
check_rate request key m g =
    let taken : Gate = record g { consumed = g.consumed ++ (limiter_key key ∷ []) } in
    let judged = judge_rate request key m m.wait_ms taken in
    let free = check_budget request key m g in if ltb 0 key.rpm_limit then judged else free

judge_managed : Request → Moment → KeyVerifyResult → Gate → Reply × Gate
unfolding invalid_key key_disabled check_rate
judge_managed request m unknown g = (invalid_key request, g)
judge_managed request m (disabled key) g = (key_disabled request key, g)
judge_managed request m (ok key) g = check_rate request key m g

-- Without a store, a root key that did not match is the end.
check_managed : Keys.Host → Request → Moment → Text → Option KeyStore → Gate → Reply × Gate
unfolding judge_managed
check_managed host request m provided none g = (invalid_key request, g)
check_managed host request m provided (some s) g =
    judge_managed request m (verify host provided s) g

check_provided : Keys.Host → Text → Request → Moment → Option Text → Gate → Reply × Gate
unfolding missing_key check_managed
check_provided host api_key request m none g = (missing_key request, g)
check_provided host api_key request m (some provided) g =
    let managed = check_managed host request m provided g.keys g in
    if not (eq_text api_key []) && key_matches host api_key provided
    then (admitted none (codes "root"), g)
    else managed

no_managed_keys : Option KeyStore → Bool
no_managed_keys none = true
no_managed_keys (some s) = length s.rows == 0

unfoldable pub auth_hook : Keys.Host → Text → Request → Moment → Gate → Reply × Gate
unfolding check_provided no_managed_keys
auth_hook host api_key request m g =
    let checked =
      check_provided host api_key request m (api_key_from host.trim request.headers) g in
    if eq_text api_key [] && no_managed_keys g.keys
    then (admitted none (codes "anon"), g)
    else checked
