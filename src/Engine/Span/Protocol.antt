-- ===== src/Engine/Span/Protocol.antt =====
-- The spans of src/host/engine.ts held against the protocol of a stream's chunks.
use agy_proxy.Prelude.{
  if-true, if-false, ℕ, suc, Bool, true, false, List, [], ◌∷◌, ◌++◌, Option, none, some, Text,
  codes, drop, if◌then◌else◌, ◌≡◌, refl, ◌∙◌, ap, fun_ext, sym, subst, append_assoc, append-nil,
  inl, inr, Bool-cases,
}
use agy_proxy.Mapper.{
  AgyEvent, StreamChunk, EventMapper, new_mapper, Yields, and_then, tool_calls, finish, block_start,
  text_delta, reasoning_delta, block_end, usage, stop, max_tokens, aborted, error, FinishReason,
  zero_usage, close_open,
}
use agy_proxy.Mapper
use agy_proxy.Mapper.Translate
use agy_proxy.Mapper.Translate.{map_event, emit_failure, failed_run, aborted_run}
use agy_proxy.Mapper.Translate.Grammar.{Follows, idle, over, counted, counts, finishes}
use agy_proxy.Mapper.Translate.Grammar.Stream.{
  Input, mapped, failed, respond, respond_all, stream-Follows_protocol,
}
use agy_proxy.Recording.{RunRecording, RecordingFailure, saw_text_before}
use agy_proxy.Recording.Registry.{get_run}
use agy_proxy.Engine.Span.{
  map_events, mapper_kind, emit_settled, drive_span, missing_run, after_span, cuts_on_tool, resume,
}

inputs : ℕ → List AgyEvent → List Input
inputs i [] = []
inputs i (ev ∷ events) = mapped ev i ∷ inputs (suc i) events

respond-finished :
    (host : Mapper.Host) (x : Input) (m : EventMapper)
    → m.finished ≡ true
    → respond host x m ≡ ([], m)
unfolding respond map_event emit_failure
respond-finished host (mapped ev i) m h = if-true m.finished _ _ h
respond-finished host (failed kind code message) m h = if-true m.finished _ _ h

respond_all-finished :
    (host : Mapper.Host) (xs : List Input) (m : EventMapper)
    → m.finished ≡ true
    → respond_all host xs m ≡ ([], m)
unfolding respond_all and_then
respond_all-finished host [] m h = refl
respond_all-finished host (x ∷ xs) m h =
    ap (λ r. and_then r (respond_all host xs)) (respond-finished host x m h)
    ∙ respond_all-finished host xs m h

respond_all-append :
    (host : Mapper.Host) (xs ys : List Input) (m : EventMapper)
    → respond_all host (xs ++ ys) m ≡ and_then (respond_all host xs m) (respond_all host ys)
unfolding respond_all and_then
respond_all-append host [] ys m = refl
respond_all-append host (x ∷ xs) ys m =
    let r = respond host x m in
    ap (λ t. (r.0 ++ t.0, t.1)) (respond_all-append host xs ys r.1)
    ∙ ap (λ c. (c, (respond_all host ys (respond_all host xs r.1).1).1))
        (sym (
          append_assoc r.0 (respond_all host xs r.1).0
            (respond_all host ys (respond_all host xs r.1).1).0))

unless_finished :
    (m : EventMapper) (later r : Yields)
    → (m.finished ≡ true → r ≡ ([], m))
    → (m.finished ≡ false → later ≡ r)
    → (if m.finished then ([], m) else later) ≡ r
unless_finished m later r halt go = elim (Bool-cases m.finished) [
  | inl e ↦ if-true m.finished ([], m) later e ∙ sym (halt e)
  | inr e ↦ if-false m.finished ([], m) later e ∙ go e
]

map_events-respond_all :
    (host : Mapper.Host) (events : List AgyEvent) (i : ℕ) (m : EventMapper)
    → map_events host events i m ≡ respond_all host (inputs i events) m
unfolding map_events respond_all inputs respond
map_events-respond_all host [] i m = refl
map_events-respond_all host (ev ∷ events) i m = ap (and_then (map_event host ev i m)) (
    fun_ext (λ n.
      unless_finished n (map_events host events (suc i) n)
        (respond_all host (inputs (suc i) events) n)
        (respond_all-finished host (inputs (suc i) events) n)
        (λ _. map_events-respond_all host events (suc i) n)))

settled_input : Option RecordingFailure → Input
settled_input none =
    failed failed_run (codes "INVALID_OUTPUT") (codes "agy stream ended without a result event")
settled_input (some f) = failed (mapper_kind f.kind) f.code f.message

emit_settled-respond :
    (host : Mapper.Host) (f : Option RecordingFailure) (m : EventMapper)
    → emit_settled host f m ≡ respond_all host (settled_input f ∷ []) m
unfolding emit_settled settled_input respond_all respond and_then
emit_settled-respond host none m =
    ap (λ c. (c, (emit_settled host none m).1)) (sym (append-nil (emit_settled host none m).0))
emit_settled-respond host (some f) m =
    ap (λ c. (c, (emit_settled host (some f) m).1))
      (sym (append-nil (emit_settled host (some f) m).0))

-- The whole of a span, as inputs of a mapper.
drive_span-respond_all :
    (host : Mapper.Host) (rec : RunRecording) (from : ℕ) (cut_on_tool : Bool)
    → drive_span host rec from cut_on_tool
      ≡ respond_all host (inputs from (drop from rec.events) ++ (settled_input rec.failure ∷ [])) (
          new_mapper rec.run_id cut_on_tool
            (saw_text_before from rec)
            (some rec.last_step_usage_raw))
unfolding drive_span and_then
drive_span-respond_all host rec from cut_on_tool =
    let m =
      new_mapper rec.run_id cut_on_tool (saw_text_before from rec) (some rec.last_step_usage_raw) in
    let events = drop from rec.events in
    let last = respond_all host (settled_input rec.failure ∷ []) in
    ap (λ next. and_then (map_events host events from m) next)
      (fun_ext (λ n.
        unless_finished n (emit_settled host rec.failure n) (last n)
          (respond_all-finished host (settled_input rec.failure ∷ []) n)
          (λ _. emit_settled-respond host rec.failure n)))
    ∙ ap (λ r. and_then r last) (map_events-respond_all host events from m)
    ∙ sym (respond_all-append host (inputs from events) (settled_input rec.failure ∷ []) m)

emit_failure-finishes :
    (host : Mapper.Host) (kind : Translate.FailureKind) (code message : Text) (m : EventMapper)
    → (emit_failure host kind code message m).1.finished ≡ true
unfolding emit_failure and_then
emit_failure-finishes host kind code message m = elim (Bool-cases m.finished) [
  | inl e ↦ ap (λ (r : Yields). r.1.finished) (if-true m.finished ([], m) _ e) ∙ e
  | inr e ↦ ap (λ (r : Yields). r.1.finished) (if-false m.finished ([], m) _ e)
]

settled-finishes :
    (host : Mapper.Host) (f : Option RecordingFailure) (m : EventMapper)
    → (respond_all host (settled_input f ∷ []) m).1.finished ≡ true
unfolding settled_input respond_all respond and_then
settled-finishes host none m =
    emit_failure-finishes host failed_run (codes "INVALID_OUTPUT")
      (codes "agy stream ended without a result event") m
settled-finishes host (some f) m =
    emit_failure-finishes host (mapper_kind f.kind) f.code f.message m

-- Every span of a recording, from whatever index, with whatever events and failure, comes to its end:
-- its chunks follow the protocol of a stream from its start to the one finish, and nothing follows.
pub drive_span-Follows :
    (host : Mapper.Host) (rec : RunRecording) (from : ℕ) (cut_on_tool : Bool)
    → Follows (idle 0) (drive_span host rec from cut_on_tool).0 over
unfolding and_then
drive_span-Follows host rec from cut_on_tool =
    let m =
      new_mapper rec.run_id cut_on_tool (saw_text_before from rec) (some rec.last_step_usage_raw) in
    let xs = inputs from (drop from rec.events) in
    let all = xs ++ (settled_input rec.failure ∷ []) in
    let (end, follows, ends) =
      stream-Follows_protocol host all rec.run_id cut_on_tool (saw_text_before from rec)
        (some rec.last_step_usage_raw) in
    let done : (respond_all host all m).1.finished ≡ true =
      ap (λ r. r.1.finished) (respond_all-append host xs (settled_input rec.failure ∷ []) m)
      ∙ settled-finishes host rec.failure (respond_all host xs m).1 in
    subst (λ r. Follows (idle 0) r.0 over) (sym (drive_span-respond_all host rec from cut_on_tool))
      (subst (Follows (idle 0) (respond_all host all m).0) (ends.1 done) follows)

-- A continuation comes to its end as a stream does, whether its run is kept or gone.
resume-Follows :
    (host : Mapper.Host) (runs : List RunRecording) (run_id : Text) (event_index : ℕ)
    → Follows (idle 0) (resume host runs run_id event_index).0 over
unfolding resume missing_run
resume-Follows host runs run_id event_index = by_run (get_run run_id runs)
  where
    by_run :
        (found : Option RunRecording)
        → Follows
            (idle 0)
            (elim found as (λ _. List StreamChunk × List RunRecording) [
              | none ↦ (missing_run run_id, runs)
              | some rec ↦
                  let chunks = (drive_span host rec (suc event_index) true).0 in
                  (chunks, after_span (cuts_on_tool chunks) rec runs)
            ]).0
            over
    by_run none = (counted, counts 0 zero_usage, (over, finishes _ none, refl))
    by_run (some rec) = drive_span-Follows host rec (suc event_index) true
