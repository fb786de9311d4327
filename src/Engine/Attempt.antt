-- ===== src/Engine/Attempt.antt =====
-- `runOnce` of src/host/engine.ts: one spawn of agy, from its output to what the attempt concluded.
pub mod Open
use agy_proxy.Prelude.{
  ℕ, Bool, true, false, ◌||◌, List, [], ◌∷◌, ◌++◌, Option, none, some, String, Text, codes, length,
  if◌then◌else◌,
}
use agy_proxy.Mapper.{AgyEvent, init_event, step_event, result_event, garbage_event}
use agy_proxy.Recording.{
  error, RecordingFailure, RunRecording, append, get_result_event, saw_text_before,
}
use agy_proxy.Parser
use agy_proxy.Parser.Feed.{StreamJsonParser, ParserStats, new_parser, feed, feed_thrown, flush}
use agy_proxy.Engine.{
  Host, RunOutcome, process_exit, aborts, abort_failure, classify_outcome, raw_err_text, brief,
}

-- What the others have done by a moment: a steer, or an abort of the caller's signal with the message
-- of its reason.
pub record Moment : Type 0 where
  pub steer_aborted : Bool
  pub signal_aborted : Bool
  pub reason : Option Text

-- What the surroundings do during one attempt. `after_spacing` is there if the spacing of the spawns
-- waits, `spawn_error` if the spawn throws, and `diffed` is the conversation that the files of the
-- account show. The notes that the runner leaves in the stderr tail, one for each chunk that the
-- parser throws on, are part of `outcome`. The last four are about the time after the attempt:
-- `on_run_throws` says that the callback of the runs throws, `after_delay` what the others have done
-- after the delay, the rest what the pool answers on its busy accounts.
pub record Attempt : Type 0 where
  pub before_spawn : Moment
  pub after_spacing : Option Moment
  pub spawn_error : Option Text
  pub chunks : List Text
  pub outcome : RunOutcome
  pub diffed : Option Text
  pub done : Moment
  pub on_run_throws : Bool
  pub after_delay : Moment
  pub pool_has_accounts : Bool
  pub select_account : List String → Option String

pub record AttemptResult : Type 0 where
  pub failure : Option RecordingFailure
  pub outcome : RunOutcome
  pub raw_err_text : Text
  pub conversation_id : Option Text
  pub result_event : Option (Bool × Text)
  pub account : Option String

unfoldable pub no_outcome : Bool → RunOutcome
no_outcome is_aborted = record {
  code = none;
  signal = none;
  timed_out = false;
  aborted = is_aborted;
  stdout = [];
  stderr_tail = [];
  duration_ms = 0;
}

unfoldable pub spawn_failed : Text → Option String → AttemptResult
unfolding no_outcome
spawn_failed msg account = record {
  failure = some (record { kind = error; code = process_exit; message = msg });
  outcome = no_outcome false;
  raw_err_text = [];
  conversation_id = none;
  result_event = none;
  account = account;
}

or_aborted : Option RecordingFailure → RecordingFailure
or_aborted none = aborts (codes "agy run aborted by caller")
or_aborted (some f) = f

unfoldable pub spawn_failed_abort : Moment → Option String → AttemptResult
unfolding no_outcome or_aborted
spawn_failed_abort now account = record {
  failure = some (or_aborted (abort_failure now.steer_aborted now.reason));
  outcome = no_outcome true;
  raw_err_text = [];
  conversation_id = none;
  result_event = none;
  account = account;
}

-- Superseded, or given up by the caller.
unfoldable pub is_cut_short : Moment → RunRecording → Bool
is_cut_short now rec = rec.settled || now.steer_aborted || now.signal_aborted

-- The parser, the conversation's id in the stream, and the recording.
pub record Intake : Type 0 where
  pub parser : StreamJsonParser
  pub stream_cid : Option Text
  pub rec : RunRecording

filled_or : Option Text → Option Text → Option Text
filled_or old none = old
filled_or old (some []) = old
filled_or old (some (c ∷ s)) = some (c ∷ s)

cid_of : AgyEvent → Option Text → Option Text
unfolding filled_or
cid_of (init_event ev) cid = filled_or cid ev.conversation_id
cid_of (result_event ev) cid = filled_or cid (some ev.conversation_id)
cid_of (step_event ev) cid = cid
cid_of (garbage_event line) cid = cid

-- After the exit only a result names the conversation.
result_cid_of : AgyEvent → Option Text → Option Text
unfolding filled_or
result_cid_of (result_event ev) cid = filled_or cid (some ev.conversation_id)
result_cid_of (init_event ev) cid = cid
result_cid_of (step_event ev) cid = cid
result_cid_of (garbage_event line) cid = cid

take_events :
    (AgyEvent → Option Text → Option Text)
    → List AgyEvent
    → Option Text × RunRecording
    → Option Text × RunRecording
take_events name [] s = s
take_events name (ev ∷ events) s = take_events name events (name ev s.0, append ev s.1)

-- The events of a chunk, or none where the parser throws, which the runner catches.
taken : Intake → StreamJsonParser → Option (List AgyEvent × StreamJsonParser) → Intake
unfolding take_events cid_of
taken s thrown none = record s { parser = thrown }
taken s thrown (some (events, parser)) =
    let found = take_events cid_of events (s.stream_cid, s.rec) in
    record { parser = parser; stream_cid = found.0; rec = found.1 }

unfoldable pub read_chunk : Parser.Host → Text → Intake → Intake
unfolding taken
read_chunk host chunk s = taken s (feed_thrown host chunk s.parser) (feed host chunk s.parser)

unfoldable pub read_chunks : Parser.Host → List Text → Intake → Intake
read_chunks host [] s = s
read_chunks host (chunk ∷ chunks) s = read_chunks host chunks (read_chunk host chunk s)

flushed : Intake → Option (List AgyEvent × StreamJsonParser) → Option Intake
unfolding take_events result_cid_of
flushed s none = none
flushed s (some (events, parser)) =
    let found = take_events result_cid_of events (s.stream_cid, s.rec) in
    some (record { parser = parser; stream_cid = found.0; rec = found.1 })

-- The whole output up to the exit, and after the flush: nothing where the flush throws.
unfoldable pub read_output : Parser.Host → List Text → RunRecording → Intake
read_output host chunks rec =
    read_chunks host chunks (record { parser = new_parser; stream_cid = none; rec = rec })

unfoldable pub read_rest : Parser.Host → Intake → Option Intake
unfolding flushed
read_rest host s = flushed s (flush host s.parser)

or_else : Option Text → Option Text → Option Text
or_else none b = b
or_else (some a) b = some a

-- What the attempt concluded, once the output has been read.
unfoldable pub conclude : Host → ℕ → Option String → Attempt → Intake → AttemptResult
unfolding or_else
conclude host timeout_ms account script s =
    let stats : ParserStats = s.parser.scanner.stats in
    let result = get_result_event s.rec in
    record {
      failure =
          classify_outcome host timeout_ms script.done.steer_aborted script.done.reason stats
            script.outcome result (saw_text_before (length s.rec.events) s.rec);
      outcome = script.outcome;
      raw_err_text = raw_err_text stats script.outcome;
      conversation_id = or_else s.stream_cid script.diffed;
      result_event = result;
      account = account;
    }

-- What an attempt leaves: its result, or none where the promise is rejected, and the recording.
unfoldable pub attempted :
    Host
    → ℕ
    → Option String
    → Attempt
    → Intake
    → Option Intake
    → Option AttemptResult × RunRecording
attempted host timeout_ms account script s none = (none, s.rec)
attempted host timeout_ms account script s (some t) =
    (some (conclude host timeout_ms account script t), t.rec)

unfoldable pub run_agy :
    Host → ℕ → Option String → Attempt → RunRecording → Option AttemptResult × RunRecording
unfolding attempted
run_agy host timeout_ms account script rec = elim script.spawn_error [
  | some e ↦ (some (spawn_failed (codes "failed to spawn agy: " ++ brief e) account), rec)
  | none ↦
      let s = read_output host.parser script.chunks rec in
      attempted host timeout_ms account script s (read_rest host.parser s)
]

-- The spacing applies to an account of the pool only.
unfoldable pub spacing_of : Option String → Attempt → Option Moment
spacing_of none script = none
spacing_of (some id) script = script.after_spacing

unfoldable pub after_wait :
    Option Moment
    → Option String
    → RunRecording
    → Option AttemptResult × RunRecording
    → Option AttemptResult × RunRecording
after_wait none account rec run = run
after_wait (some now) account rec run =
    if is_cut_short now rec then (some (spawn_failed_abort now account), rec) else run

unfoldable pub run_once :
    Host → ℕ → Option String → Attempt → RunRecording → Option AttemptResult × RunRecording
unfolding run_agy spacing_of after_wait
run_once host timeout_ms account script rec =
    if is_cut_short script.before_spawn rec
    then (some (spawn_failed_abort script.before_spawn account), rec)
    else after_wait (spacing_of account script) account rec
        (run_agy host timeout_ms account script rec)
