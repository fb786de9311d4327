-- ===== src/Mapper/Translate/Grammar/Stream.antt =====
-- Whole streams of src/host/mapper.ts, events and failures in any order, held against the protocol.
use agy_proxy.Prelude.{
  ℕ, suc, Bool, true, false, not, ◌↔◌, List, [], ◌∷◌, ◌++◌, Option, none, some, Text, codes, ◌≡◌,
  refl, inl, inr, Bool-cases, eq_text, if◌then◌else◌, ◌&&◌, ◌||◌,
}
use agy_proxy.Mapper.{
  RawUsage, StepEvent, ResultEvent, AgyToolInfo, AgyEvent, EventMapper, FinishReason, TokenUsage,
  Host, usage_from_raw, stop, zero_usage, scrub_token_material, Yields, new_mapper, and_then,
  close_open, ensure_block, open_text, open_reasoning, usage, finish, init_event, step_event,
  result_event, garbage_event, text_step, thinking_step, tool_step, AgyStepKind, subagent_step,
  title_step, user_input_step, unknown_step, suffix_delta,
}
use agy_proxy.Mapper.Translate.{
  final_usage, replay_state, failure_reason, remember, snapshot, fragment_of, note_step_usage,
  text_of, is_complete, cut, tool_of, map_step, finish_result, fallback_text, error_note,
  map_result, map_live, map_event, FailureKind, emit_failure, has_text, emitted,
}
use agy_proxy.Mapper.Translate.Grammar.{
  Phase, Follows, phase_of, if-rec, phase-over, phase, Sound, Sound-and_then, close-Sound, Runs,
  Opens, ensure-Opens, append-Opens, block-Opens, snapshot-Opens, idle, calling, counted, over,
  calls, called, counts, finishes,
}

written-Opens :
    (ev : StepEvent) (m : EventMapper)
    → m.open_type ≡ some open_text
    → m.finished ≡ false
    → Opens open_text m (if ev.fragment then fragment_of ev m else snapshot ev m)
unfolding fragment_of snapshot remember
written-Opens ev m q f = elim (Bool-cases ev.fragment) [
  | inl e ↦ rw e (
      append-Opens open_text ev.text
        (remember ev.step_key (emitted ev.step_key m.emitted_by_key ++ ev.text) m) q f)
  | inr e ↦ rw e (
      append-Opens open_text (suffix_delta (emitted ev.step_key m.emitted_by_key) ev.text)
        (remember ev.step_key ev.text m) q f)
]

text-Runs : (ev : StepEvent) (m : EventMapper) → m.finished ≡ false → Runs m (text_of ev m)
unfolding text_of and_then
text-Runs ev m f = elim (Bool-cases (eq_text ev.text [] && not ev.fragment)) [
  | inl e ↦ rw e (refl, f)
  | inr e ↦
      let seen : EventMapper = record m { saw_text_step = true } in
      let ensured = ensure-Opens open_text seen f in
      let wrote = written-Opens ev (ensure_block open_text seen).1 ensured.1 ensured.2 in
      rw e (
        Sound-and_then seen (ensure_block open_text seen)
            (λ n. if ev.fragment then fragment_of ev n else snapshot ev n) ensured.0 wrote.0,
        wrote.2,
      )
]

cut-Sound :
    (host : Host) (tool : AgyToolInfo) (i : ℕ) (m : EventMapper)
    → m.open_type ≡ none
    → m.finished ≡ false
    → Sound m (cut host tool i m)
unfolding cut phase_of
cut-Sound host tool i m q f =
    rw (q, f)
      (
        calling m.block_idx,
        calls m.block_idx,
        (
          idle (suc m.block_idx),
          called m.block_idx _ _ _,
          (counted, counts (suc m.block_idx) _, (over, finishes _ _, refl)),
        ),
      )

tool-Sound :
    (host : Host) (ev : StepEvent) (tool : AgyToolInfo) (i : ℕ) (m : EventMapper)
    → m.finished ≡ false
    → Sound m (tool_of host ev tool i m)
unfolding tool_of and_then
tool-Sound host ev tool i m f =
    let announced : EventMapper = record m { announced_tools = ev.step_key ∷ m.announced_tools } in
    let closed = close-Sound announced f in
    if-rec (Sound m) (not (is_complete tool) || has_text ev.step_key m.announced_tools) (λ _. refl)
      (λ _.
        if-rec (Sound m) (not m.cut_on_tool) (λ _. refl)
          (λ _.
            Sound-and_then announced (close_open announced) (cut host tool i) closed.0
              (cut-Sound host tool i (close_open announced).1 closed.1 closed.2)))

step-Sound :
    (host : Host) (ev : StepEvent) (i : ℕ) (m : EventMapper)
    → m.finished ≡ false
    → Sound m (map_step host ev i m)
unfolding map_step
step-Sound host ev i m f = go ev.step_kind ev.tool
  where
    go :
        (k : AgyStepKind) (t : Option AgyToolInfo)
        → Sound m (map_step host (record ev { step_kind = k; tool = t }) i m)
    go text_step t = (text-Runs ev m f).0
    go thinking_step t = (snapshot-Opens open_reasoning ev m f).0
    go subagent_step t =
        (block-Opens open_reasoning (codes "[agy subagent] " ++ (ev.text ++ (10 ∷ []))) m f).0
    go tool_step none = refl
    go tool_step (some tool) = tool-Sound host ev tool i m f
    go title_step t = refl
    go user_input_step t = refl
    go unknown_step t = refl

end-Sound :
    (u : TokenUsage) (reason : FinishReason) (replay : Option Text) (m : EventMapper)
    → m.open_type ≡ none
    → m.finished ≡ false
    → Sound m (usage u ∷ finish reason replay ∷ [], record m { finished = true })
unfolding phase_of
end-Sound u reason replay m q f =
    rw (q, f) (counted, counts m.block_idx u, (over, finishes reason replay, refl))

result_end-Sound :
    (ev : ResultEvent) (m : EventMapper) → m.finished ≡ false → Sound m (finish_result ev m)
unfolding finish_result
result_end-Sound ev m f =
    let closed = close-Sound m f in
    let n = (close_open m).1 in
    Sound-and_then m (close_open m)
      (λ k. (
        usage (usage_from_raw (final_usage k.tracker ev.usage))
            ∷ finish stop (replay_state ev.conversation_id)
            ∷ [],
        record k { finished = true },
      ))
      closed.0
      (end-Sound (usage_from_raw (final_usage n.tracker ev.usage)) stop
        (replay_state ev.conversation_id) n closed.1 closed.2)

fallback-Runs :
    (response : Text) (m : EventMapper) → m.finished ≡ false → Runs m (fallback_text response m)
unfolding fallback_text
fallback-Runs response m f = elim (Bool-cases (not m.saw_text_step && not (eq_text response []))) [
  | inl e ↦ let opened = block-Opens open_text response m f in rw e (opened.0, opened.2)
  | inr e ↦ rw e (refl, f)
]

note-Runs : (e : Option Text) (m : EventMapper) → m.finished ≡ false → Runs m (error_note e m)
unfolding error_note
note-Runs none m f = (refl, f)
note-Runs (some []) m f = (refl, f)
note-Runs (some (c ∷ e)) m f =
    let opened =
      block-Opens open_reasoning (codes "[agy finished with error] " ++ ((c ∷ e) ++ (10 ∷ []))) m
        f in
    (opened.0, opened.2)

result-Sound : (ev : ResultEvent) (m : EventMapper) → m.finished ≡ false → Sound m (map_result ev m)
unfolding map_result
result-Sound ev m f =
    let back = fallback-Runs ev.response m f in
    let n = (fallback_text ev.response m).1 in
    let noted = note-Runs ev.error n back.1 in
    if-rec (Sound m) ev.ok
      (λ _.
        Sound-and_then m (fallback_text ev.response m) (finish_result ev) back.0
          (result_end-Sound ev n back.1))
      (λ _.
        if-rec (Sound m) (eq_text ev.response []) (λ _. refl)
          (λ _.
            Sound-and_then m (fallback_text ev.response m)
              (λ k. and_then (error_note ev.error k) (finish_result ev)) back.0
              (Sound-and_then n (error_note ev.error n) (finish_result ev) noted.0
                (result_end-Sound ev (error_note ev.error n).1 noted.1))))

noted-Sound :
    (host : Host) (ev : StepEvent) (i : ℕ) (m : EventMapper)
    → m.finished ≡ false
    → (u : Option RawUsage) → Sound m (map_step host ev i (note_step_usage u m))
unfolding note_step_usage
noted-Sound host ev i m f none = step-Sound host ev i m f
noted-Sound host ev i m f (some raw) = step-Sound host ev i (note_step_usage (some raw) m) f

live-Sound :
    (host : Host) (ev : AgyEvent) (i : ℕ) (m : EventMapper)
    → m.finished ≡ false
    → Sound m (map_live host ev i m)
unfolding map_live
live-Sound host (init_event e) i m f = refl
live-Sound host (garbage_event e) i m f = refl
live-Sound host (result_event ev) i m f = result-Sound ev m f
live-Sound host (step_event ev) i m f = noted-Sound host ev i m f ev.usage

event-Sound :
    (host : Host) (ev : AgyEvent) (i : ℕ) (m : EventMapper) → Sound m (map_event host ev i m)
unfolding map_event
event-Sound host ev i m = if-rec (Sound m) m.finished (λ f. refl) (λ f. live-Sound host ev i m f)

failure-Sound :
    (host : Host) (kind : FailureKind) (code message : Text) (m : EventMapper)
    → Sound m (emit_failure host kind code message m)
unfolding emit_failure
failure-Sound host kind code message m =
    let reason = failure_reason kind (record {
      message = scrub_token_material host message;
      code = code;
      status = none;
      provider_retry_after_ms = none;
      request_id = none;
    }) in
    if-rec (Sound m) m.finished (λ f. refl)
      (λ f.
        let closed = close-Sound m f in
        Sound-and_then m (close_open m)
          (λ n. (usage zero_usage ∷ finish reason none ∷ [], record n { finished = true })) closed.0
          (end-Sound zero_usage reason none (close_open m).1 closed.1 closed.2))

-- What reaches a mapper: an event with its index in the recording, or a terminal failure.
pub data Input : Type 0 where
  mapped : AgyEvent → ℕ → Input
  failed : FailureKind → Text → Text → Input

unfoldable pub respond : Host → Input → EventMapper → Yields
respond host (mapped ev i) m = map_event host ev i m
respond host (failed kind code message) m = emit_failure host kind code message m

unfoldable pub respond_all : Host → List Input → EventMapper → Yields
unfolding respond and_then
respond_all host [] m = ([], m)
respond_all host (x ∷ inputs) m = and_then (respond host x m) (respond_all host inputs)

respond-Sound : (host : Host) (x : Input) (m : EventMapper) → Sound m (respond host x m)
unfolding respond
respond-Sound host (mapped ev i) m = event-Sound host ev i m
respond-Sound host (failed kind code message) m = failure-Sound host kind code message m

respond_all-Sound :
    (host : Host) (inputs : List Input) (m : EventMapper) → Sound m (respond_all host inputs m)
unfolding respond_all
respond_all-Sound host [] m = refl
respond_all-Sound host (x ∷ inputs) m =
    Sound-and_then m (respond host x m) (respond_all host inputs) (respond-Sound host x m)
      (respond_all-Sound host inputs (respond host x m).1)

-- Whatever events and failures reach a new mapper, in whatever order, its chunks follow the protocol:
-- blocks come one at a time with the indices 0, 1, 2, …, each end carries the whole of its block's
-- deltas, and a usage, between blocks, is followed by the finish and nothing more. The protocol is
-- at its end exactly when the mapper is finished.
pub stream-Follows_protocol :
    (host : Host) (inputs : List Input) (run_id : Text) (cut_on_tool saw_text : Bool)
    (tracker : Option (Option RawUsage))
    → let r = respond_all host inputs (new_mapper run_id cut_on_tool saw_text tracker) in
      (end : Phase) × Follows (idle 0) r.0 end × (end ≡ over ↔ r.1.finished ≡ true)
unfolding new_mapper phase_of
stream-Follows_protocol host inputs run_id cut_on_tool saw_text tracker =
    let m = new_mapper run_id cut_on_tool saw_text tracker in
    let n = (respond_all host inputs m).1 in
    (
      phase n,
      respond_all-Sound host inputs m,
      phase-over n.finished n.open_type n.block_idx n.open_acc,
    )
