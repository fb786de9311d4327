-- ===== src/Engine/Dispatch.antt =====
-- The dispatch of src/host/engine.ts: the attempts of one run, and how the run settles.
--
-- Nothing but the dispatch settles its recording. What an operation of the pool or of the session
-- store does is an effect here, in the order of the calls.
use agy_proxy.Prelude.{
  ℕ, zero, suc, ◌+◌, Bool, true, false, not, ◌&&◌, ◌||◌, List, [], ◌∷◌, ◌++◌, Option, none, some,
  String, Text, codes, eq_text, leb, if◌then◌else◌,
}
use agy_proxy.Mapper.{TokenUsage, usage_from_raw}
use agy_proxy.Recording.{
  error, RecordingFailure, RunRecording, settle, final_usage, get_result_raw_usage,
  has_client_mapped_events,
}
use agy_proxy.Engine.{
  Host, brief, is_empty, timeout, process_exit, invalid_output, auth, validation_required,
  looks_like_hard_rate_limit, looks_like_rate_limit,
}
use agy_proxy.Engine.Busy.{Marks, track_busy, untrack_busy}
use agy_proxy.Engine.Attempt.{
  Moment, Attempt, AttemptResult, spawn_failed_abort, is_cut_short, run_once,
}

-- `onRun`'s argument, without what is the same in every call of a run.
pub record RunInfo : Type 0 where
  pub ok : Bool
  pub code : Text
  pub attempt : ℕ
  pub final : Bool
  pub failure_message : Option Text
  pub duration_ms : ℕ
  pub usage : Option TokenUsage
  pub account_id : Option String
  pub conversation_id : Option Text

-- `runs` holds the calls of `onRun`, and `releases` counts those of the semaphore's `release`.
pub record Dispatch : Type 0 where
  pub rec : RunRecording
  pub account : Option String
  pub marks : Marks
  pub runs : List RunInfo
  pub released : Bool
  pub releases : ℕ

-- How the loop is left: the recording was settled, the last attempt counts, or a callback or an attempt
-- threw.
pub data Leaves : Type 0 where
  out_of_fuel : Leaves
  superseded : Dispatch → Leaves
  concluded : AttemptResult → Dispatch → Leaves
  throws : Dispatch → Leaves

abbrev pub max_retries : ℕ
max_retries = 1

unfoldable pub is_retryable : Text → Bool
is_retryable code = eq_text code timeout || eq_text code process_exit || eq_text code invalid_output

unfoldable pub shape_only : Option (Bool × Text) → Bool
unfolding is_empty
shape_only none = true
shape_only (some (ok, response)) = not ok && is_empty response

retryable_failure : Option RecordingFailure → Bool
unfolding is_retryable
retryable_failure none = false
retryable_failure (some f) = is_retryable f.code

unfoldable pub can_retry : AttemptResult → RunRecording → Bool
unfolding retryable_failure
can_retry last rec =
    retryable_failure last.failure
    && shape_only last.result_event
    && not (has_client_mapped_events rec)

unfoldable pub is_final : AttemptResult → RunRecording → ℕ → Moment → Bool
is_final last rec attempt now =
    not (can_retry last rec) || leb max_retries attempt || now.steer_aborted || now.signal_aborted

unfoldable pub code_of : Option RecordingFailure → Text
code_of none = codes "OK"
code_of (some f) = f.code

unfoldable pub message_of : Option RecordingFailure → Option Text
message_of none = none
message_of (some f) = some f.message

succeeded : Option RecordingFailure → Bool
succeeded none = true
succeeded (some f) = false

unfoldable pub run_info : AttemptResult → RunRecording → ℕ → Bool → RunInfo
unfolding code_of message_of succeeded
run_info last rec attempt final = record {
  ok = succeeded last.failure;
  code = code_of last.failure;
  attempt = attempt;
  final = final;
  failure_message = message_of last.failure;
  duration_ms = last.outcome.duration_ms;
  usage = elim (get_result_raw_usage rec) [
    | none ↦ none
    | some raw ↦ some (usage_from_raw (final_usage rec raw))
  ];
  account_id = last.account;
  conversation_id = elim last.conversation_id [
    | none ↦ none
    | some cid ↦ if is_empty cid then none else some cid
  ];
}

unfoldable pub fire_run : AttemptResult → ℕ → Bool → Dispatch → Dispatch
fire_run last attempt final d = record d {
  runs = d.runs ++ (run_info last d.rec attempt final ∷ []);
}

-- The account of the next attempt, or the end of the loop when there is none.
unfoldable pub move_to :
    (Dispatch → Leaves) → AttemptResult → Marks → Dispatch → Option String → Leaves
move_to next last freed d none = concluded last (record d { marks = track_busy d.account freed })
move_to next last freed d (some id) =
    next (record d { account = some id; marks = track_busy (some id) freed })

unfoldable pub reselect : (Dispatch → Leaves) → Attempt → AttemptResult → Dispatch → Leaves
unfolding move_to
reselect next script last d =
    let freed = untrack_busy d.account d.marks in
    let moved = move_to next last freed d (script.select_account freed.busy_accounts) in
    if script.pool_has_accounts then moved else next d

-- The last call of `onRun`, which may throw.
unfoldable pub conclude_with : Attempt → AttemptResult → ℕ → Dispatch → Leaves
conclude_with script last attempt d =
    let fired = fire_run last attempt true d in
    if script.on_run_throws then throws fired else concluded last fired

unfoldable pub after_delay : (Dispatch → Leaves) → Attempt → AttemptResult → ℕ → Dispatch → Leaves
after_delay next script last attempt d =
    let retried = reselect next script last d in
    if is_cut_short script.after_delay d.rec
    then conclude_with script (spawn_failed_abort script.after_delay d.account) (suc attempt) d
    else retried

unfoldable pub after_attempt :
    (Dispatch → Leaves) → Attempt → ℕ → Dispatch → Option AttemptResult × RunRecording → Leaves
after_attempt next script attempt d (none, rec) = throws (record d { rec = rec })
after_attempt next script attempt d (some last, rec) =
    let d' : Dispatch = record d { rec = rec } in
    let fired = fire_run last attempt false d' in
    let retried = after_delay next script last attempt fired in
    if is_final last rec attempt script.done
    then conclude_with script last attempt d'
    else if script.on_run_throws
    then throws fired
    else retried

-- The loop, on fuel. `world n` is what happens during the attempt `n`.
unfoldable pub run_attempts : Host → ℕ → (ℕ → Attempt) → ℕ → ℕ → Dispatch → Leaves
run_attempts host timeout_ms world zero attempt d = out_of_fuel
run_attempts host timeout_ms world (suc fuel) attempt d =
    let ran =
      after_attempt (run_attempts host timeout_ms world fuel (suc attempt)) (world attempt) attempt
        d (run_once host timeout_ms d.account (world attempt) d.rec) in
    if d.rec.settled then superseded d else ran

unfoldable pub release_once : Dispatch → Dispatch
release_once d = if d.released then d else record d { released = true; releases = d.releases + 1 }

pub data Effect : Type 0 where
  forget_run : Text → Effect
  record_success : String → Effect
  record_failure : String → Text → Effect
  mark_auth_required : String → Text → Effect
  set_session : Text → Text → Effect
  delete_session : Text → Effect

-- The session of the run: its key in the store, and the conversation that it is bound to.
pub record Session : Type 0 where
  pub key : Text
  pub bound : Option Text

-- `if (finalId)`
set_filled : Text → Option Text → List Effect
set_filled key none = []
set_filled key (some []) = []
set_filled key (some (c ∷ cid)) = set_session key (c ∷ cid) ∷ []

of_account : Option String → (String → Effect) → List Effect
of_account none f = []
of_account (some id) f = f id ∷ []

unfoldable pub when : Bool → List Effect → List Effect
when true effects = effects
when false effects = []

conversation_of : Session → AttemptResult → Option Text
conversation_of session last = elim session.bound [
  | some cid ↦ some cid
  | none ↦ last.conversation_id
]

unfoldable pub success_effects : Session → AttemptResult → List Effect
unfolding set_filled of_account when conversation_of
success_effects session last =
    of_account last.account record_success
    ++ when (not (is_empty session.key)) (set_filled session.key (conversation_of session last))

unfoldable pub failure_effects : Host → Session → AttemptResult → RecordingFailure → List Effect
unfolding of_account when
failure_effects host session last f =
    let limited =
      looks_like_rate_limit host last.raw_err_text || looks_like_rate_limit host f.message in
    when (looks_like_hard_rate_limit host last.raw_err_text)
      (of_account last.account (λ id. record_failure id f.message))
    ++ when
        (eq_text f.code auth || eq_text f.code validation_required || host.mentions_auth f.message)
        (of_account last.account (λ id. mark_auth_required id f.message))
    ++ when
        (not (is_empty session.key)
          && (eq_text f.code auth
              || limited
              || not (is_empty f.message) && host.rejects_conversation f.message))
        (delete_session session.key ∷ [])

unfoldable pub effects_of : Host → Session → AttemptResult → List Effect
effects_of host session last = elim last.failure [
  | none ↦ success_effects session last
  | some f ↦ failure_effects host session last f
]

unfoldable pub internal_error : Text → RecordingFailure
internal_error e = record {
  kind = error;
  code = process_exit;
  message = codes "internal error: " ++ brief e;
}

unfoldable pub untracked : Dispatch → Dispatch
untracked d = record d { marks = untrack_busy d.account d.marks }

pub data Ended : Type 0 where
  never_ends : Ended
  ended : Dispatch → List Effect → Ended

-- After the loop, with the `catch` and the `finally`. `keep` says whether a continuation keeps the
-- recording, and `thrown` is the text of a thrown error.
unfoldable pub wind_up : Host → Session → Bool → Text → Leaves → Ended
unfolding when internal_error untracked
wind_up host session keep thrown out_of_fuel = never_ends
wind_up host session keep thrown (superseded d) = ended (untracked (release_once d)) []
wind_up host session keep thrown (throws d) =
    let freed = release_once d in
    ended (untracked (record freed { rec = settle (some (internal_error thrown)) freed.rec })) []
wind_up host session keep thrown (concluded last d) =
    let freed = release_once d in
    ended (untracked (record freed { rec = settle last.failure freed.rec }))
      (when (not keep) (forget_run d.rec.run_id ∷ []) ++ effects_of host session last)

unfoldable pub start : RunRecording → Option String → Marks → Dispatch
start rec account marks = record {
  rec = rec;
  account = account;
  marks = track_busy account marks;
  runs = [];
  released = false;
  releases = 0;
}

-- From the mark of the account to the end of the run: two rounds of fuel.
unfoldable pub dispatch :
    Host → ℕ → (ℕ → Attempt) → Session → Bool → Text → RunRecording → Option String → Marks → Ended
dispatch host timeout_ms world session keep thrown rec account marks =
    wind_up host session keep thrown
      (run_attempts host timeout_ms world (suc max_retries) 0 (start rec account marks))
