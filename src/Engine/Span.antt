-- ===== src/Engine/Span.antt =====
-- The spans of src/host/engine.ts: a recording from one index on, as the chunks that the client gets.
-- The events are those of the settled recording, in the order of the appends.
pub mod Protocol
use agy_proxy.Prelude.{
  ℕ, suc, ◌+◌, Bool, true, false, not, ◌||◌, ◌&&◌, List, [], ◌∷◌, ◌++◌, Option, none, some, Text,
  codes, drop, if◌then◌else◌, ◌≡◌, refl, ◌∙◌, ap, fun_ext, sym, subst, append_assoc, append-nil,
  inl, inr, Bool-cases, ◌↔◌, arith,
}
use agy_proxy.Mapper.{
  AgyEvent, StreamChunk, EventMapper, new_mapper, Yields, and_then, tool_calls, finish, block_start,
  text_delta, reasoning_delta, block_end, usage, stop, max_tokens, aborted, error, FinishReason,
  zero_usage, close_open,
}
use agy_proxy.Mapper
use agy_proxy.Mapper.Translate
use agy_proxy.Mapper.Translate.{map_event, emit_failure, failed_run, aborted_run}
use agy_proxy.Mapper.Translate.Grammar.{Phase, Follows, idle, over}
use agy_proxy.Mapper.Translate.Grammar.Stream.{
  Input, mapped, failed, respond, respond_all, stream-Follows_protocol,
}
use agy_proxy.Recording.{RunRecording, RecordingFailure, FailureKind, saw_text_before}
use agy_proxy.Recording
use agy_proxy.Recording.Registry.{forget, get_run, set_run}

-- The loop over the events, which a finish leaves.
unfoldable pub map_events : Mapper.Host → List AgyEvent → ℕ → EventMapper → Yields
unfolding and_then
map_events host [] i m = ([], m)
map_events host (ev ∷ events) i m =
    and_then (map_event host ev i m)
      (λ n. let later = map_events host events (suc i) n in if n.finished then ([], n) else later)

mapper_kind : FailureKind → Translate.FailureKind
mapper_kind Recording.error = failed_run
mapper_kind Recording.aborted = aborted_run

unfoldable pub emit_settled : Mapper.Host → Option RecordingFailure → EventMapper → Yields
unfolding mapper_kind
emit_settled host none m =
    emit_failure host failed_run (codes "INVALID_OUTPUT")
      (codes "agy stream ended without a result event") m
emit_settled host (some f) m = emit_failure host (mapper_kind f.kind) f.code f.message m

unfoldable pub drive_span : Mapper.Host → RunRecording → ℕ → Bool → Yields
unfolding map_events and_then emit_settled
drive_span host rec from cut_on_tool =
    and_then
      (map_events host (drop from rec.events) from (
        new_mapper rec.run_id cut_on_tool (saw_text_before from rec)
          (some rec.last_step_usage_raw)))
      (λ m. if m.finished then ([], m) else emit_settled host rec.failure m)

is_cut : StreamChunk → Bool
is_cut (finish tool_calls replay) = true
is_cut (finish stop replay) = false
is_cut (finish max_tokens replay) = false
is_cut (finish (aborted f) replay) = false
is_cut (finish (error f) replay) = false
is_cut (block_start i k) = false
is_cut (text_delta i t) = false
is_cut (reasoning_delta i t) = false
is_cut (block_end i b) = false
is_cut (usage u) = false

unfoldable pub cuts_on_tool : List StreamChunk → Bool
unfolding is_cut
cuts_on_tool [] = false
cuts_on_tool (c ∷ chunks) = is_cut c || cuts_on_tool chunks

missing_run : Text → List StreamChunk
missing_run run_id =
    usage zero_usage
    ∷ finish
        (error (record {
          message =
              codes "agy run "
              ++ (run_id
                  ++ codes
                      " is no longer available (server restarted?) — please resend your message");
          code = codes "AGY_ERROR";
          status = none;
          provider_retry_after_ms = none;
          request_id = none;
        }))
        none
    ∷ []

-- The recording after a span that was read to its end.
after_span : Bool → RunRecording → List RunRecording → List RunRecording
after_span keep rec runs =
    if not keep && rec.settled
    then forget rec.run_id runs
    else set_run (record rec { keep_for_continuation = keep }) runs

-- A continuation: its chunks, and the runs that are kept.
unfoldable pub resume :
    Mapper.Host → List RunRecording → Text → ℕ → List StreamChunk × List RunRecording
unfolding missing_run after_span
resume host runs run_id event_index = elim (get_run run_id runs) [
  | none ↦ (missing_run run_id, runs)
  | some rec ↦
      let chunks = (drive_span host rec (suc event_index) true).0 in
      (chunks, after_span (cuts_on_tool chunks) rec runs)
]
