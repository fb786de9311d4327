-- ===== src/Engine/Examples.antt =====
-- Runs of src/host/engine.ts whose spawns fail, a span of two lines, and a continuation.
use agy_proxy.Prelude.{
  ℕ, zero, suc, true, false, [], ◌∷◌, ◌++◌, Option, none, some, String, codes, eq_text, ◌≡◌, refl,
  arith,
}
use agy_proxy.Mapper
use agy_proxy.Mapper.{step_event, text_step, mirror_call_id}
use agy_proxy.Mapper.Translate.Grammar.{Follows, idle, over}
use agy_proxy.Recording.{RunRecording, new_recording, has_client_mapped_events}
use agy_proxy.Recording.CallId.{read_decimal, read_decimal-decimal}
use agy_proxy.Engine.{Host, brief}
use agy_proxy.Engine.Busy.{no_marks}
use agy_proxy.Engine.Attempt.{
  Moment, Attempt, AttemptResult, no_outcome, spawn_failed, run_once, is_cut_short,
}
use agy_proxy.Engine.Dispatch.{Session, dispatch, is_final, can_retry, is_retryable, shape_only}
use agy_proxy.Engine.Endings.{Wound, dispatch_winds_up}
use agy_proxy.Engine.Retries.{served_run_is_not_repeated, reported_finals, final_run_is_lost}
use agy_proxy.Engine.Span.{drive_span}
use agy_proxy.Engine.Span.Protocol.{drive_span-Follows}
use agy_proxy.Engine.Request.{tool, detect_continuation, detect_continuation-mirror_call_id}

abbrev host : Host
host = record {
  parser = record {
    parse = λ _. none;
    stringify = λ _. [];
    to_string = λ _. [];
    to_lower_case = λ s. s;
    to_upper_case = λ s. s;
    looks_like_auth_failure = λ _. false;
    extract_auth_url = λ _. none;
  };
  hard_limit = λ _. false;
  soft_limit = λ _. false;
  validation = λ _. false;
  find_url = λ _. none;
  mentions_auth = λ _. false;
  rejects_conversation = λ _. false;
}

abbrev quiet : Moment
quiet = record { steer_aborted = false; signal_aborted = false; reason = none }

-- A spawn that fails, and a pool that offers `found` for the retry.
abbrev failing : Option String → Attempt
failing found = record {
  before_spawn = quiet;
  after_spacing = none;
  spawn_error = some (codes "ENOENT");
  chunks = [];
  outcome = no_outcome false;
  diffed = none;
  done = quiet;
  on_run_throws = false;
  after_delay = quiet;
  pool_has_accounts = true;
  select_account = λ _. found;
}

abbrev session : Session
session = record { key = []; bound = none }

abbrev rec : RunRecording
rec = new_recording (codes "r")

dispatch_winds_up_example :
    Wound no_marks
      (dispatch host 1000 (λ _. failing (some "b")) session false [] rec (some "a") no_marks)
dispatch_winds_up_example =
    dispatch_winds_up host 1000 (λ _. failing (some "b")) session false [] rec (some "a") no_marks

unsettled : rec.settled ≡ false
unfolding new_recording
unsettled = refl

abbrev found : Option String
found = some "b"

-- The recording has a text, and the spawn fails.
abbrev said : RunRecording
said = record (new_recording (codes "r")) {
  events =
      step_event (record {
        step_key = codes "1";
        step_kind = text_step;
        text = codes "hi";
        fragment = false;
        tool = none;
        state = none;
        usage = none;
      })
      ∷ [];
}

abbrev failed : AttemptResult
failed = spawn_failed (codes "failed to spawn agy: ENOENT") none

ran : run_once host 1000 none (failing none) said ≡ (some failed, said)
unfolding run_once is_cut_short new_recording brief
ran = refl

served : has_client_mapped_events said ≡ true
unfolding has_client_mapped_events
served = refl

-- Later attempts differ.
abbrev other : ℕ → Attempt
other zero = failing none
other (suc n) = failing found

served_run_is_not_repeated_example :
    dispatch host 1000 other session false [] said none no_marks
    ≡ dispatch host 1000 (λ _. failing none) session false [] said none no_marks
served_run_is_not_repeated_example =
    served_run_is_not_repeated host 1000 (λ _. failing none) other session false [] said none
      no_marks failed said ran served refl

ran_alone : run_once host 1000 none (failing none) rec ≡ (some failed, rec)
unfolding run_once is_cut_short new_recording brief
ran_alone = refl

repeatable : is_final failed rec 0 quiet ≡ false
unfolding is_final can_retry is_retryable shape_only has_client_mapped_events new_recording
    spawn_failed eq_text
repeatable = refl

still_live : is_cut_short quiet rec ≡ false
unfolding is_cut_short new_recording
still_live = refl

final_run_is_lost_example :
    reported_finals (dispatch host 1000 (λ _. failing none) session false [] rec none no_marks)
    ≡ some 0
final_run_is_lost_example =
    final_run_is_lost host 1000 (λ _. failing none) session false [] rec none no_marks failed rec
      unsettled ran_alone repeatable refl still_live refl (λ _. refl)

abbrev mapper_host : Mapper.Host
mapper_host = record {
  stringify = λ _ _ t _. t;
  redact_oauth = λ t. t;
  redact_bearer = λ t. t;
  redact_code = λ t. t;
}

drive_span-Follows_example : Follows (idle 0) (drive_span mapper_host said 0 true).0 over
drive_span-Follows_example = drive_span-Follows mapper_host said 0 true

detect_continuation-mirror_call_id_example :
    detect_continuation read_decimal (
      []
      ++ (record {
        role = tool;
        text = [];
        tool_call_id = some (mirror_call_id (codes "r-1") 12);
        provider = none;
      }
          ∷ []))
    ≡ some (codes "r-1", 12)
detect_continuation-mirror_call_id_example =
    detect_continuation-mirror_call_id read_decimal [] [] none 114 (codes "-1") 12 (omega arith)
      (λ k _. read_decimal-decimal k)
