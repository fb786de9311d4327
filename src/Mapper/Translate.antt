-- ===== src/Mapper/Translate.antt =====
-- src/host/mapper.ts: the chunks that each event yields, `map` and `emitFailure`.
pub mod Grammar
pub mod Examples
use agy_proxy.Prelude.{
  ℕ, zero, suc, ◌+◌, ◌/◌, ◌%◌, Bool, true, false, not, ◌&&◌, ◌||◌, List, [], ◌∷◌, ◌++◌, Option,
  none, some, Text, codes, length, drop, eq_text, starts_with, ltb, if◌then◌else◌,
}
use agy_proxy.Mapper.{
  RawUsage, AgyStepKind, AgyToolInfo, InitEvent, StepEvent, ResultEvent, AgyEvent, LlmFailure,
  ContentBlock, FinishReason, TokenUsage, BlockType, StreamChunk, or_zero, usage_from_raw,
  zero_usage, suffix_delta, Host, scrub_token_material, digits, decimal, mirror_call_id, OpenType,
  EventMapper, new_mapper, Yields, and_then, block_type, assembled, delta_chunk, close_open,
  same_type, is_open, start_block, ensure_block, delta_type, append_delta, text_step, thinking_step,
  tool_step, title_step, subagent_step, user_input_step, unknown_step, init_event, step_event,
  result_event, garbage_event, text_block, reasoning_block, tool_call_block, stop, tool_calls,
  max_tokens, aborted, error, text, reasoning, tool_call, block_start, text_delta, reasoning_delta,
  block_end, usage, finish, open_text, open_reasoning,
}

-- `emittedByKey.get(key) ?? ''`
emitted : Text → List (Text × Text) → Text
emitted key [] = []
emitted key ((k, v) ∷ rest) = let later = emitted key rest in if eq_text key k then v else later

set_emitted : Text → Text → List (Text × Text) → List (Text × Text)
set_emitted key value [] = (key, value) ∷ []
set_emitted key value ((k, v) ∷ rest) =
    let later = set_emitted key value rest in
    if eq_text key k then (k, value) ∷ rest else (k, v) ∷ later

has_text : Text → List Text → Bool
has_text key [] = false
has_text key (k ∷ rest) = eq_text key k || has_text key rest

remember : Text → Text → EventMapper → EventMapper
unfolding set_emitted
remember key value m = record m { emitted_by_key = set_emitted key value m.emitted_by_key }

-- The delta of a whole snapshot.
snapshot : StepEvent → EventMapper → Yields
unfolding emitted remember
snapshot ev m =
    append_delta (suffix_delta (emitted ev.step_key m.emitted_by_key) ev.text)
      (remember ev.step_key ev.text m)

fragment_of : StepEvent → EventMapper → Yields
unfolding emitted remember
fragment_of ev m =
    append_delta ev.text (remember ev.step_key (emitted ev.step_key m.emitted_by_key ++ ev.text) m)

-- `opts.usage?.noteStepUsage(raw)`
noted : RawUsage → Option (Option RawUsage) → Option (Option RawUsage)
noted raw none = none
noted raw (some last) = some (some raw)

note_step_usage : Option RawUsage → EventMapper → EventMapper
unfolding noted
note_step_usage none m = m
note_step_usage (some raw) m = record m { tracker = noted raw m.tracker }

text_of : StepEvent → EventMapper → Yields
unfolding snapshot fragment_of and_then
text_of ev m =
    if eq_text ev.text [] && not ev.fragment
    then ([], m)
    else and_then (ensure_block open_text (record m { saw_text_step = true }))
        (λ n. if ev.fragment then fragment_of ev n else snapshot ev n)

is_complete : AgyToolInfo → Bool
is_complete tool = elim tool.output [
  | some _ ↦ true
  | none ↦ elim tool.error [ none ↦ false | some _ ↦ true ]
]

-- The tool-call block, usage and finish of a cut span.
cut : Host → AgyToolInfo → ℕ → EventMapper → Yields
unfolding mirror_call_id
cut host tool abs_index m = (
  block_start m.block_idx tool_call
      ∷ block_end m.block_idx (
          tool_call_block (mirror_call_id m.run_id abs_index) (codes "agy_tool")
            (host.stringify m.run_id abs_index tool.name tool.args))
      ∷ usage zero_usage
      ∷ finish tool_calls none
      ∷ [],
  record m { block_idx = suc m.block_idx; finished = true },
)

tool_of : Host → StepEvent → AgyToolInfo → ℕ → EventMapper → Yields
unfolding is_complete has_text cut and_then
tool_of host ev tool abs_index m =
    if not (is_complete tool) || has_text ev.step_key m.announced_tools
    then ([], m)
    else let announced : EventMapper = record m {
      announced_tools = ev.step_key ∷ m.announced_tools;
    } in
      if not m.cut_on_tool
      then ([], announced)
      else and_then (close_open announced) (cut host tool abs_index)

map_step : Host → StepEvent → ℕ → EventMapper → Yields
unfolding text_of snapshot tool_of and_then
map_step host ev abs_index m = elim ev.step_kind [
  | text_step ↦ text_of ev m
  | thinking_step ↦ and_then (ensure_block open_reasoning m) (snapshot ev)
  | subagent_step ↦
      and_then (ensure_block open_reasoning m)
        (append_delta (codes "[agy subagent] " ++ (ev.text ++ (10 ∷ []))))
  | tool_step ↦ elim ev.tool [ none ↦ ([], m) | some tool ↦ tool_of host ev tool abs_index m ]
  | title_step ↦ ([], m)
  | user_input_step ↦ ([], m)
  | unknown_step ↦ ([], m)
]

-- `opts.usage?.finalUsage(raw) ?? raw`
final_usage : Option (Option RawUsage) → RawUsage → RawUsage
final_usage (some (some last)) raw = last
final_usage (some none) raw = raw
final_usage none raw = raw

replay_state : Text → Option Text
replay_state [] = none
replay_state (c ∷ id) = some (c ∷ id)

-- The end of both result branches.
finish_result : ResultEvent → EventMapper → Yields
unfolding and_then final_usage replay_state
finish_result ev m = and_then (close_open m) (λ n. (
  usage (usage_from_raw (final_usage n.tracker ev.usage))
      ∷ finish stop (replay_state ev.conversation_id)
      ∷ [],
  record n { finished = true },
))

-- The response, when no text has been streamed.
fallback_text : Text → EventMapper → Yields
unfolding and_then
fallback_text response m =
    if not m.saw_text_step && not (eq_text response [])
    then and_then (ensure_block open_text m) (append_delta response)
    else ([], m)

error_note : Option Text → EventMapper → Yields
unfolding and_then
error_note none m = ([], m)
error_note (some []) m = ([], m)
error_note (some (c ∷ e)) m =
    and_then (ensure_block open_reasoning m)
      (append_delta (codes "[agy finished with error] " ++ ((c ∷ e) ++ (10 ∷ []))))

map_result : ResultEvent → EventMapper → Yields
unfolding and_then fallback_text error_note finish_result
map_result ev m =
    if ev.ok
    then and_then (fallback_text ev.response m) (finish_result ev)
    else if eq_text ev.response []
    then ([], m)
    else and_then (fallback_text ev.response m)
        (λ n. and_then (error_note ev.error n) (finish_result ev))

map_live : Host → AgyEvent → ℕ → EventMapper → Yields
unfolding map_step map_result note_step_usage
map_live host (init_event _) abs_index m = ([], m)
map_live host (garbage_event _) abs_index m = ([], m)
map_live host (step_event ev) abs_index m = map_step host ev abs_index (note_step_usage ev.usage m)
map_live host (result_event ev) abs_index m = map_result ev m

unfoldable pub map_event : Host → AgyEvent → ℕ → EventMapper → Yields
unfolding map_live
map_event host ev abs_index m = if m.finished then ([], m) else map_live host ev abs_index m

-- The two kinds of failure.
pub data FailureKind : Type 0 where
  failed_run : FailureKind
  aborted_run : FailureKind

failure_reason : FailureKind → LlmFailure → FinishReason
failure_reason failed_run f = error f
failure_reason aborted_run f = aborted f

unfoldable pub emit_failure : Host → FailureKind → Text → Text → EventMapper → Yields
unfolding and_then failure_reason scrub_token_material
emit_failure host kind code message m =
    let failure : LlmFailure = record {
      message = scrub_token_material host message;
      code = code;
      status = none;
      provider_retry_after_ms = none;
      request_id = none;
    } in
    if m.finished
    then ([], m)
    else and_then (close_open m) (λ n. (
      usage zero_usage ∷ finish (failure_reason kind failure) none ∷ [],
      record n { finished = true },
    ))
