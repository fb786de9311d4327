-- ===== src/Mapper.antt =====
-- src/host/mapper.ts: agy's normalized events turned into the chunks of a stream, with the events of
-- src/common/types.ts and the chunks of src/host/stream-types.ts. A generator is a function that
-- answers the chunks it yields with the mapper it leaves.
pub mod Translate
use agy_proxy.Prelude.{
  ℕ, zero, suc, ◌+◌, ◌/◌, ◌%◌, Bool, true, false, not, ◌&&◌, ◌||◌, List, [], ◌∷◌, ◌++◌, Option,
  none, some, Text, codes, length, drop, eq_text, starts_with, ltb, if◌then◌else◌,
}

-- Events. A value of the type `unknown` stands as its JSON text.
pub record RawUsage : Type 0 where
  pub input_tokens : Option ℕ
  pub output_tokens : Option ℕ
  pub thinking_tokens : Option ℕ
  pub cache_read_tokens : Option ℕ
  pub cache_write_tokens : Option ℕ
  pub total_tokens : Option ℕ

pub data AgyStepKind : Type 0 where
  text_step : AgyStepKind
  thinking_step : AgyStepKind
  tool_step : AgyStepKind
  title_step : AgyStepKind
  subagent_step : AgyStepKind
  user_input_step : AgyStepKind
  unknown_step : AgyStepKind

pub record AgyToolInfo : Type 0 where
  pub name : Text
  pub args : Option Text
  pub output : Option Text
  pub error : Option Text

pub record InitEvent : Type 0 where
  pub conversation_id : Option Text
  pub model : Option Text

pub record StepEvent : Type 0 where
  pub step_key : Text
  pub step_kind : AgyStepKind
  pub text : Text
  pub fragment : Bool
  pub tool : Option AgyToolInfo
  pub state : Option Text
  pub usage : Option RawUsage

pub record ResultEvent : Type 0 where
  pub conversation_id : Text
  pub ok : Bool
  pub response : Text
  pub error : Option Text
  pub usage : RawUsage

pub data AgyEvent : Type 0 where
  init_event : InitEvent → AgyEvent
  step_event : StepEvent → AgyEvent
  result_event : ResultEvent → AgyEvent
  garbage_event : Text → AgyEvent

-- Chunks. A block of the kind tool-result is never part of a stream and has no constructor here.
pub record LlmFailure : Type 0 where
  pub message : Text
  pub code : Text
  pub status : Option ℕ
  pub provider_retry_after_ms : Option ℕ
  pub request_id : Option Text

pub data ContentBlock : Type 0 where
  text_block : Text → ContentBlock
  reasoning_block : Text → ContentBlock
  -- Its id, name and arguments.
  tool_call_block : Text → Text → Text → ContentBlock

pub data FinishReason : Type 0 where
  stop : FinishReason
  tool_calls : FinishReason
  max_tokens : FinishReason
  aborted : LlmFailure → FinishReason
  error : LlmFailure → FinishReason

pub record TokenUsage : Type 0 where
  pub input_tokens : ℕ
  pub output_tokens : ℕ
  pub cache_read_tokens : Option ℕ
  pub cache_write_tokens : Option ℕ
  pub reasoning_tokens : Option ℕ

pub data BlockType : Type 0 where
  text : BlockType
  reasoning : BlockType
  tool_call : BlockType

-- A finish carries the id of the conversation as its replay state.
pub data StreamChunk : Type 0 where
  block_start : ℕ → BlockType → StreamChunk
  text_delta : ℕ → Text → StreamChunk
  reasoning_delta : ℕ → Text → StreamChunk
  block_end : ℕ → ContentBlock → StreamChunk
  usage : TokenUsage → StreamChunk
  finish : FinishReason → Option Text → StreamChunk

or_zero : Option ℕ → ℕ
or_zero none = 0
or_zero (some n) = n

unfoldable pub usage_from_raw : RawUsage → TokenUsage
unfolding or_zero
usage_from_raw raw = record {
  input_tokens = or_zero raw.input_tokens;
  output_tokens = or_zero raw.output_tokens;
  cache_read_tokens = raw.cache_read_tokens;
  cache_write_tokens = raw.cache_write_tokens;
  reasoning_tokens = raw.thinking_tokens;
}

abbrev pub zero_usage : TokenUsage
zero_usage = record {
  input_tokens = 0;
  output_tokens = 0;
  cache_read_tokens = none;
  cache_write_tokens = none;
  reasoning_tokens = none;
}

-- Only what grew; else a line break and the whole text.
unfoldable pub suffix_delta : Text → Text → Text
suffix_delta prev next =
    if eq_text next prev
    then []
    else if eq_text prev []
    then next
    else if starts_with next prev
    then drop (length prev) next
    else 10 ∷ next

-- JavaScript's own functions: `JSON.stringify` of a run, step, tool and input, and `replace` by each
-- of the three expressions of `scrubTokenMaterial`.
pub record Host : Type 0 where
  pub stringify : Text → ℕ → Text → Option Text → Text
  pub redact_oauth : Text → Text
  pub redact_bearer : Text → Text
  pub redact_code : Text → Text

-- src/host/diagnostics.ts
scrub_token_material : Host → Text → Text
scrub_token_material host message =
    host.redact_code (host.redact_bearer (host.redact_oauth message))

-- `String(n)`: `n` has at most `n + 1` digits.
unfoldable pub digits : ℕ → ℕ → Text
digits zero n = []
digits (suc fuel) n =
    let higher = digits fuel (n / 10) in
    if ltb n 10 then (48 + n) ∷ [] else higher ++ ((48 + n % 10) ∷ [])

unfoldable pub decimal : ℕ → Text
unfolding digits
decimal n = digits (suc n) n

-- src/host/recording.ts
unfoldable pub mirror_call_id : Text → ℕ → Text
mirror_call_id run_id event_index = codes "agytc-" ++ (run_id ++ (codes "-" ++ decimal event_index))

-- The kinds of block that stay open.
pub data OpenType : Type 0 where
  open_text : OpenType
  open_reasoning : OpenType

pub record EventMapper : Type 0 where
  pub run_id : Text
  pub cut_on_tool : Bool
  pub block_idx : ℕ
  pub open_type : Option OpenType
  pub open_acc : Text
  pub emitted_by_key : List (Text × Text)
  pub announced_tools : List Text
  pub saw_text_step : Bool
  pub finished : Bool
  -- The tracker of the options, when there is one: the recording's last step usage.
  pub tracker : Option (Option RawUsage)

unfoldable pub new_mapper : Text → Bool → Bool → Option (Option RawUsage) → EventMapper
new_mapper run_id cut_on_tool initial_saw_text tracker = record {
  run_id = run_id;
  cut_on_tool = cut_on_tool;
  block_idx = 0;
  open_type = none;
  open_acc = [];
  emitted_by_key = [];
  announced_tools = [];
  saw_text_step = initial_saw_text;
  finished = false;
  tracker = tracker;
}

abbrev pub Yields : Type 0
Yields = List StreamChunk × EventMapper

-- One generator after another.
unfoldable pub and_then : Yields → (EventMapper → Yields) → Yields
and_then r next = (r.0 ++ (next r.1).0, (next r.1).1)

block_type : OpenType → BlockType
block_type open_text = text
block_type open_reasoning = reasoning

assembled : OpenType → Text → ContentBlock
assembled open_text acc = text_block acc
assembled open_reasoning acc = reasoning_block acc

delta_chunk : OpenType → ℕ → Text → StreamChunk
delta_chunk open_text i t = text_delta i t
delta_chunk open_reasoning i t = reasoning_delta i t

unfoldable pub close_open : EventMapper → Yields
unfolding assembled
close_open m = elim m.open_type [
  | none ↦ ([], m)
  | some k ↦ (
    block_end m.block_idx (assembled k m.open_acc) ∷ [],
    record m { block_idx = suc m.block_idx; open_type = none; open_acc = [] },
  )
]

same_type : OpenType → OpenType → Bool
same_type open_text open_text = true
same_type open_reasoning open_reasoning = true
same_type open_text open_reasoning = false
same_type open_reasoning open_text = false

is_open : OpenType → Option OpenType → Bool
unfolding same_type
is_open k none = false
is_open k (some j) = same_type k j

start_block : OpenType → EventMapper → Yields
unfolding block_type
start_block k m =
    (block_start m.block_idx (block_type k) ∷ [], record m { open_type = some k; open_acc = [] })

unfoldable pub ensure_block : OpenType → EventMapper → Yields
unfolding is_open start_block and_then
ensure_block k m =
    if is_open k m.open_type then ([], m) else and_then (close_open m) (start_block k)

-- With no open block it is a reasoning delta, as in the source.
delta_type : Option OpenType → OpenType
delta_type none = open_reasoning
delta_type (some k) = k

unfoldable pub append_delta : Text → EventMapper → Yields
unfolding delta_type delta_chunk
append_delta [] m = ([], m)
append_delta (c ∷ delta) m = (
  delta_chunk (delta_type m.open_type) m.block_idx (c ∷ delta) ∷ [],
  record m { open_acc = m.open_acc ++ (c ∷ delta) },
)
