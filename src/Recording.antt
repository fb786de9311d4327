-- ===== src/Recording.antt =====
-- src/host/recording.ts: the event log of one run, and the registry of the runs that are kept. The
-- engine's abort callback and the waiting consumers are not part of the model.
pub mod Log
pub mod CallId
pub mod Registry
pub mod Examples
use agy_proxy.Prelude.{
  ℕ, zero, suc, ◌+◌, max, min, Bool, true, false, not, ◌&&◌, ◌||◌, List, [], ◌∷◌, ◌++◌, Option,
  none, some, Text, length, take, eq_text, leb, ltb, if◌then◌else◌,
}
use agy_proxy.Mapper.{
  RawUsage, AgyToolInfo, StepEvent, ResultEvent, AgyEvent, AgyStepKind, text_step, thinking_step,
  tool_step, title_step, subagent_step, user_input_step, unknown_step, init_event, step_event,
  result_event, garbage_event,
}

pub data FailureKind : Type 0 where
  error : FailureKind
  aborted : FailureKind

pub record RecordingFailure : Type 0 where
  pub kind : FailureKind
  pub code : Text
  pub message : Text

abbrev pub max_events_per_run : ℕ
max_events_per_run = 20000

pub record RunRecording : Type 0 where
  pub run_id : Text
  pub events : List AgyEvent
  pub settled : Bool
  pub failure : Option RecordingFailure
  pub result_conversation_id : Option Text
  pub last_step_usage_raw : Option RawUsage
  pub dropped_events : ℕ
  pub keep_for_continuation : Bool

unfoldable pub new_recording : Text → RunRecording
new_recording run_id = record {
  run_id = run_id;
  events = [];
  settled = false;
  failure = none;
  result_conversation_id = none;
  last_step_usage_raw = none;
  dropped_events = 0;
  keep_for_continuation = false;
}

unfoldable pub is_result : AgyEvent → Bool
is_result (result_event _) = true
is_result (init_event _) = false
is_result (step_event _) = false
is_result (garbage_event _) = false

reported : Option ℕ → Bool
reported none = false
reported (some _) = true

-- `Object.keys(usage).length > 0`
has_keys : RawUsage → Bool
unfolding reported
has_keys u =
    reported u.input_tokens
    || reported u.output_tokens
    || reported u.thinking_tokens
    || reported u.cache_read_tokens
    || reported u.cache_write_tokens
    || reported u.total_tokens

sampled : Option RawUsage → Option RawUsage → Option RawUsage
unfolding has_keys
sampled last none = last
sampled last (some raw) = if has_keys raw then some raw else last

-- The bookkeeping of results and usage, before the cap is looked at.
note : AgyEvent → RunRecording → RunRecording
unfolding sampled
note (result_event ev) r = record r { result_conversation_id = some ev.conversation_id }
note (step_event ev) r = record r { last_step_usage_raw = sampled r.last_step_usage_raw ev.usage }
note (init_event _) r = r
note (garbage_event _) r = r

unfoldable pub append : AgyEvent → RunRecording → RunRecording
unfolding is_result note
append ev r =
    if r.settled
    then r
    else if not (is_result ev) && leb max_events_per_run (length r.events)
    then record (note ev r) { dropped_events = r.dropped_events + 1 }
    else record (note ev r) { events = r.events ++ (ev ∷ []) }

unfoldable pub final_usage : RunRecording → RawUsage → RawUsage
final_usage r raw = elim r.last_step_usage_raw [ none ↦ raw | some last ↦ last ]

unfoldable pub settle : Option RecordingFailure → RunRecording → RunRecording
settle failure r = if r.settled then r else record r { settled = true; failure = failure }

some_result : List AgyEvent → Bool
unfolding is_result
some_result [] = false
some_result (ev ∷ events) = is_result ev || some_result events

unfoldable pub has_result : RunRecording → Bool
unfolding some_result
has_result r = elim r.result_conversation_id [ some _ ↦ true | none ↦ some_result r.events ]

-- The last result, which the loop finds from the end.
last_result : List AgyEvent → Option ResultEvent
last_result [] = none
last_result (ev ∷ events) = elim (last_result events) [
  | some found ↦ some found
  | none ↦ elim ev [
    | result_event found ↦ some found
    | init_event _ ↦ none
    | step_event _ ↦ none
    | garbage_event _ ↦ none
  ]
]

unfoldable pub get_result_event : RunRecording → Option (Bool × Text)
unfolding last_result
get_result_event r = elim (last_result r.events) [
  | none ↦ none
  | some ev ↦ some (ev.ok, ev.response)
]

unfoldable pub get_result_raw_usage : RunRecording → Option RawUsage
unfolding last_result has_keys
get_result_raw_usage r = elim (last_result r.events) [
  | none ↦ none
  | some ev ↦ if has_keys ev.usage then some ev.usage else none
]

unfoldable pub get_event : List AgyEvent → ℕ → Option AgyEvent
get_event [] i = none
get_event (ev ∷ events) zero = some ev
get_event (ev ∷ events) (suc i) = get_event events i

unfoldable pub event_at : ℕ → RunRecording → Option AgyEvent
event_at index r = get_event r.events index

is_text : AgyStepKind → Bool
is_text text_step = true
is_text thinking_step = false
is_text tool_step = false
is_text title_step = false
is_text subagent_step = false
is_text user_input_step = false
is_text unknown_step = false

shows_text : AgyEvent → Bool
unfolding is_text
shows_text (step_event ev) = is_text ev.step_kind && not (eq_text ev.text [])
shows_text (init_event _) = false
shows_text (result_event _) = false
shows_text (garbage_event _) = false

any_text : List AgyEvent → Bool
unfolding shows_text
any_text [] = false
any_text (ev ∷ events) = shows_text ev || any_text events

unfoldable pub saw_text_before : ℕ → RunRecording → Bool
unfolding any_text
saw_text_before index r = any_text (take (min index (length r.events)) r.events)

any_step : List AgyEvent → Bool
any_step [] = false
any_step (step_event _ ∷ events) = true
any_step (init_event _ ∷ events) = any_step events
any_step (result_event _ ∷ events) = any_step events
any_step (garbage_event _ ∷ events) = any_step events

unfoldable pub has_client_mapped_events : RunRecording → Bool
unfolding any_step
has_client_mapped_events r = any_step r.events

tool_of : AgyEvent → Option AgyToolInfo
tool_of (step_event ev) = elim ev.step_kind [
  | tool_step ↦ ev.tool
  | text_step ↦ none
  | thinking_step ↦ none
  | title_step ↦ none
  | subagent_step ↦ none
  | user_input_step ↦ none
  | unknown_step ↦ none
]
tool_of (init_event _) = none
tool_of (result_event _) = none
tool_of (garbage_event _) = none

unfoldable pub tool_event_at : ℕ → RunRecording → Option AgyToolInfo
unfolding tool_of
tool_event_at index r = elim (get_event r.events index) [ none ↦ none | some ev ↦ tool_of ev ]
