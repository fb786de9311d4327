-- ===== src/Mapper/Translate/Examples.antt =====
-- A short stream of events through src/host/mapper.ts.
use agy_proxy.Prelude.{
  true, false, List, [], ◌∷◌, some, none, codes, eq_text, starts_with, ◌≡◌, ◌↔◌, refl,
}
use agy_proxy.Mapper.{
  RawUsage, Host, text_step, step_event, result_event, block_start, text_delta, block_end, usage,
  finish, text, text_block, stop, new_mapper, ensure_block, close_open, append_delta, suffix_delta,
  usage_from_raw,
}
use agy_proxy.Mapper.Translate.Grammar.{Phase, idle, over, Follows}
use agy_proxy.Mapper.Translate.Grammar.Stream.{
  Input, mapped, failed, respond_all, stream-Follows_protocol,
}
use agy_proxy.Mapper.Translate.{failed_run, map_event, emit_failure}

abbrev host : Host
host = record {
  stringify = λ run step tool input. tool;
  redact_oauth = λ t. t;
  redact_bearer = λ t. t;
  redact_code = λ t. t;
}

abbrev no_usage : RawUsage
no_usage = record {
  input_tokens = none;
  output_tokens = none;
  thinking_tokens = none;
  cache_read_tokens = none;
  cache_write_tokens = none;
  total_tokens = none;
}

-- Two snapshots of one step, the result, and a failure too late.
abbrev inputs : List Input
inputs =
    mapped
      (step_event (record {
        step_key = codes "s";
        step_kind = text_step;
        text = codes "he";
        fragment = false;
        tool = none;
        state = none;
        usage = none;
      }))
      0
    ∷ mapped
        (step_event (record {
          step_key = codes "s";
          step_kind = text_step;
          text = codes "hello";
          fragment = false;
          tool = none;
          state = none;
          usage = none;
        }))
        1
    ∷ mapped
        (result_event (record {
          conversation_id = codes "c";
          ok = true;
          response = codes "hello";
          error = none;
          usage = no_usage;
        }))
        2
    ∷ failed failed_run (codes "AGY_ERROR") (codes "late")
    ∷ []

inputs_answer :
    (respond_all host inputs (new_mapper (codes "r") true false none)).0
    ≡ block_start 0 text
      ∷ text_delta 0 (codes "he")
      ∷ text_delta 0 (codes "llo")
      ∷ block_end 0 (text_block (codes "hello"))
      ∷ usage (record {
        input_tokens = 0;
        output_tokens = 0;
        cache_read_tokens = none;
        cache_write_tokens = none;
        reasoning_tokens = none;
      })
      ∷ finish stop (some (codes "c"))
      ∷ []
unfolding respond_all new_mapper map_event eq_text ensure_block close_open append_delta suffix_delta
    starts_with usage_from_raw emit_failure
inputs_answer = refl

stream-Follows_protocol_example :
    let r = respond_all host inputs (new_mapper (codes "r") true false none) in
    (end : Phase) × Follows (idle 0) r.0 end × (end ≡ over ↔ r.1.finished ≡ true)
stream-Follows_protocol_example = stream-Follows_protocol host inputs (codes "r") true false none
