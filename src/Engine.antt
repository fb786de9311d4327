-- ===== src/Engine.antt =====
-- `AgyEngine` of src/host/engine.ts: how the outcome of agy's process becomes a failure or a success.
pub mod Attempt
pub mod Busy
pub mod Dispatch
pub mod Endings
pub mod Reports
pub mod Retries
pub mod Span
pub mod Request
pub mod Examples
use agy_proxy.Prelude.{
  ℕ, Bool, true, false, not, ◌&&◌, ◌||◌, List, [], ◌∷◌, ◌++◌, Option, none, some, Text, codes,
  eq_text, length, take, ltb, if◌then◌else◌, ◌==◌,
}
use agy_proxy.Mapper.{decimal}
use agy_proxy.Tokens.{is_space}
use agy_proxy.Recording.{FailureKind, error, aborted, RecordingFailure}
use agy_proxy.Parser
use agy_proxy.Parser.Feed.{ParserStats}

-- JavaScript's own functions: those of the parser, and the tests by the regular expressions of
-- `looksLikeHardRateLimit`, `looksLikeRateLimit`, `looksLikeValidationRequired` and
-- `extractValidationUrl` (src/common/types.ts), and of the two tests of a failure's message in the
-- engine itself.
pub record Host : Type 0 where
  pub parser : Parser.Host
  pub hard_limit : Text → Bool
  pub soft_limit : Text → Bool
  pub validation : Text → Bool
  pub find_url : Text → Option Text
  pub mentions_auth : Text → Bool
  pub rejects_conversation : Text → Bool

pub record RunOutcome : Type 0 where
  pub code : Option ℕ
  pub signal : Option Text
  pub timed_out : Bool
  pub aborted : Bool
  pub stdout : Text
  pub stderr_tail : Text
  pub duration_ms : ℕ

abbrev pub timeout : Text
timeout = codes "TIMEOUT"

abbrev pub process_exit : Text
process_exit = codes "PROCESS_EXIT"

abbrev pub invalid_output : Text
invalid_output = codes "INVALID_OUTPUT"

abbrev pub auth : Text
auth = codes "AUTH"

abbrev pub agy_error : Text
agy_error = codes "AGY_ERROR"

abbrev pub validation_required : Text
validation_required = codes "VALIDATION_REQUIRED"

unfoldable pub is_empty : Text → Bool
is_empty [] = true
is_empty (c ∷ s) = false

unfoldable pub looks_like_hard_rate_limit : Host → Text → Bool
unfolding is_empty
looks_like_hard_rate_limit host s = not (is_empty s) && host.hard_limit s

unfoldable pub looks_like_rate_limit : Host → Text → Bool
unfolding looks_like_hard_rate_limit
looks_like_rate_limit host s =
    not (is_empty s) && (looks_like_hard_rate_limit host s || host.soft_limit s)

unfoldable pub looks_like_validation_required : Host → Text → Bool
looks_like_validation_required host s = not (is_empty s) && host.validation s

extract_validation_url : Host → Text → Option Text
extract_validation_url host s =
    if looks_like_validation_required host s then host.find_url s else none

-- `s.trim().replace(/\s+/g, ' ')`: whether a word came before, and whether white space follows it.
flatten : Bool → Bool → Text → Text
unfolding is_space
flatten started gap [] = []
flatten started gap (c ∷ s) =
    let spaced = flatten started true s in
    let word = flatten true false s in
    if is_space c then spaced else if started && gap then 32 ∷ c ∷ word else c ∷ word

unfoldable pub brief : Text → Text
unfolding flatten
brief s =
    let flat = flatten false false s in
    if ltb 300 (length flat) then take 300 flat ++ codes "..." else flat

unfoldable pub saw_auth_failure : Host → ParserStats → RunOutcome → Bool
saw_auth_failure host stats outcome =
    stats.saw_auth_failure
    || host.parser.looks_like_auth_failure outcome.stderr_tail
    || host.parser.looks_like_auth_failure (take 4000 outcome.stdout)

-- `[a, b].filter(Boolean).join(' ')`
joined : Text → Text → Text
joined [] b = b
joined (c ∷ a) [] = c ∷ a
joined (c ∷ a) (d ∷ b) = (c ∷ a) ++ (32 ∷ d ∷ b)

or_empty : Option Text → Text
or_empty none = []
or_empty (some s) = s

unfoldable pub raw_err_text : ParserStats → RunOutcome → Text
unfolding joined or_empty
raw_err_text stats outcome = joined outcome.stderr_tail (or_empty stats.last_result_error)

-- `stderrTail !== '' ? brief(stderrTail) : otherwise`
tail_or : Text → RunOutcome → Text
unfolding is_empty
tail_or otherwise outcome =
    if is_empty outcome.stderr_tail then otherwise else brief outcome.stderr_tail

-- `lastResultError ?? …`
detail_or : Text → ParserStats → RunOutcome → Text
unfolding tail_or
detail_or otherwise stats outcome = elim stats.last_result_error [
  | none ↦ tail_or otherwise outcome
  | some e ↦ e
]

fails : Text → Text → Option RecordingFailure
fails code message = some (record { kind = error; code = code; message = message })

unfoldable pub aborts : Text → RecordingFailure
aborts message = record { kind = aborted; code = codes "ABORTED"; message = message }

abort_reason : Text → Option RecordingFailure
unfolding aborts
abort_reason reason =
    if eq_text reason (codes "output-budget")
    then none
    else if eq_text reason (codes "client disconnected")
    then some (aborts (codes "client disconnected mid-generation"))
    else if eq_text reason (codes "server shutting down")
    then some (aborts (codes "server shutting down (grace drain)"))
    else some (aborts (codes "agy run aborted by caller"))

-- A steer, or the message of the signal's reason.
unfoldable pub abort_failure : Bool → Option Text → Option RecordingFailure
unfolding abort_reason aborts
abort_failure true reason = some (aborts (codes "superseded by a newer prompt on the same session"))
abort_failure false none = some (aborts (codes "agy run aborted by caller"))
abort_failure false (some reason) = abort_reason reason

validation_message : Host → Text → Text
unfolding extract_validation_url
validation_message host detail = elim (extract_validation_url host detail) [
  | none ↦ detail
  | some url ↦ detail ++ (codes " (validation_url: " ++ (url ++ codes ")"))
]

validation_failure : Host → ParserStats → RunOutcome → Option RecordingFailure
unfolding fails detail_or validation_message
validation_failure host stats outcome = fails validation_required (
    validation_message host
      (detail_or (codes "upstream requires re-validation (VALIDATION_REQUIRED)") stats outcome))

-- `lastResultError || …`
rate_limit_message : ParserStats → RunOutcome → Text
unfolding tail_or or_empty
rate_limit_message stats outcome =
    if is_empty (or_empty stats.last_result_error)
    then tail_or (codes "Rate limit or quota reached") outcome
    else or_empty stats.last_result_error

suffix : Text → Text
suffix [] = []
suffix (c ∷ detail) = codes ": " ++ (c ∷ detail)

-- The exit without a consumable result.
exit_failure : Option Text → Option ℕ → Text → Option RecordingFailure
unfolding fails suffix is_empty
exit_failure signal (some code) detail =
    fails process_exit (codes "agy exited with code " ++ (decimal code ++ suffix detail))
exit_failure (some signal) none detail =
    fails process_exit
      (codes "agy process was terminated (signal " ++ (signal ++ (codes ")" ++ suffix detail)))
exit_failure none none detail = fails process_exit (
    codes "failed to spawn agy: "
    ++ (if is_empty detail
        then codes "unknown spawn error (binary missing or not executable?)"
        else detail))

silent_failure : Bool → ParserStats → Option RecordingFailure
unfolding fails or_empty is_empty
silent_failure canceled_empty stats =
    let e = or_empty stats.last_result_error in
    if canceled_empty
    then fails invalid_output
        (codes "agy ended with an empty response (CANCELED, google antigravity #902)")
    else if not (is_empty e)
    then fails agy_error (codes "agy reported an error: " ++ e)
    else fails invalid_output (
        codes "agy produced no result event ("
        ++ (decimal stats.garbage ++ codes " unparseable lines)"))

is_success_code : Option ℕ → Bool
is_success_code none = false
is_success_code (some code) = code == 0

useless_failure : Bool → ParserStats → RunOutcome → Option RecordingFailure
unfolding is_success_code exit_failure silent_failure detail_or
useless_failure canceled_empty stats outcome =
    if is_success_code outcome.code
    then silent_failure canceled_empty stats
    else exit_failure outcome.signal outcome.code (detail_or [] stats outcome)

-- Whether the mapper finishes on the result.
unfoldable pub is_consumable : Option (Bool × Text) → Bool → Bool
unfolding is_empty
is_consumable none canceled_empty = false
is_consumable (some (ok, response)) canceled_empty =
    (ok || not (is_empty response)) && not canceled_empty

unfoldable pub is_canceled_empty : Option (Bool × Text) → Bool → Bool
unfolding is_empty
is_canceled_empty none saw_text = false
is_canceled_empty (some (ok, response)) saw_text = ok && is_empty response && not saw_text

-- The chain of tests after the process ends. `steer` and `reason` say who aborted it.
unfoldable pub classify_outcome :
    Host
    → ℕ
    → Bool
    → Option Text
    → ParserStats
    → RunOutcome
    → Option (Bool × Text)
    → Bool
    → Option RecordingFailure
unfolding fails validation_failure rate_limit_message useless_failure
classify_outcome host timeout_ms steer reason stats outcome result saw_text =
    let canceled_empty = is_canceled_empty result saw_text in
    if outcome.aborted
    then abort_failure steer reason
    else if outcome.timed_out
    then fails timeout
        (codes "agy run was idle for " ++ (decimal timeout_ms ++ codes "ms without output"))
    else if saw_auth_failure host stats outcome
    then fails auth
        (codes "agy is not signed in — add a Google account to the pool (admin UI) to login")
    else if looks_like_validation_required host (raw_err_text stats outcome)
    then validation_failure host stats outcome
    else if looks_like_rate_limit host (raw_err_text stats outcome)
    then fails agy_error (
        codes "Google Antigravity quota / rate limit reached: " ++ rate_limit_message stats outcome)
    else if is_consumable result canceled_empty
    then none
    else useless_failure canceled_empty stats outcome
