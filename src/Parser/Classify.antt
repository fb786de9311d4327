-- ===== src/Parser/Classify.antt =====
-- `classifyEvent` of src/host/parser.ts.
use agy_proxy.Prelude.{
  ℕ, zero, suc, Bool, true, false, not, ◌&&◌, ◌||◌, List, [], ◌∷◌, Option, none, some, Text, codes,
  eq_text, if◌then◌else◌,
}
use agy_proxy.Mapper.{
  RawUsage, AgyStepKind, AgyToolInfo, StepEvent, ResultEvent, InitEvent, AgyEvent, init_event,
  step_event, result_event, tool_step, decimal,
}
use agy_proxy.Parser.{
  Json, null, bool, num, str, arr, obj, Fields, end, field, Host, get, present, or_else, pick,
  is_one_of, normalize_step_kind, as_string, as_filled, as_object, as_object_or_array, truthy,
  parse_usage,
}

unfoldable pub extract_text : Fields → Text
unfolding pick present get as_string as_object_or_array
extract_text o =
    let direct = as_string (
      pick o (
        codes "text"
        ∷ codes "content"
        ∷ codes "agent_text"
        ∷ codes "agentText"
        ∷ codes "output_text"
        ∷ codes "payload_text"
        ∷ [])) in
    let payload =
      as_object_or_array
        (pick o (codes "payload" ∷ codes "step_payload" ∷ codes "stepPayload" ∷ [])) in
    elim direct [ some s ↦ s | none ↦ elim payload [ none ↦ [] | some p ↦ inner_text p ] ]
  where
    inner_text : Fields → Text
    inner_text p =
        elim (as_string
          (pick p (codes "text" ∷ codes "content" ∷ codes "agent_text" ∷ codes "agentText" ∷ []))) [
            | none ↦ []
            | some s ↦ s
          ]

unfoldable pub extract_text_delta : Fields → Option Text
extract_text_delta o = as_string (pick o (codes "text_delta" ∷ codes "textDelta" ∷ []))

-- `tool_info.error`: a text, or an object with a message.
tool_error : Option Json → Option Text
unfolding as_filled get
tool_error (some (str s)) = some s
tool_error (some (obj fs)) = as_filled (get (codes "message") fs)
tool_error _ = none

text_of : Host → Option Json → Option Text
text_of host none = none
text_of host (some v) = some (host.stringify v)

unfoldable pub extract_tool : Host → Fields → Option AgyToolInfo
unfolding as_filled tool_error text_of
extract_tool host o =
    let info = as_object_or_array (
      pick o (
        codes "tool_info"
        ∷ codes "toolInfo"
        ∷ codes "tool"
        ∷ codes "tool_call"
        ∷ codes "toolCall"
        ∷ [])) in
    let src : Fields = elim info [ none ↦ o | some fs ↦ fs ] in
    elim (as_filled (
      pick src
        (codes "name" ∷ codes "tool_name" ∷ codes "toolName" ∷ codes "canonical_name" ∷ []))) [
          | none ↦ none
          | some name ↦ some (record {
            name = name;
            args = text_of host (
                pick src (
                  codes "parameters"
                  ∷ codes "params"
                  ∷ codes "input"
                  ∷ codes "args"
                  ∷ codes "input_json"
                  ∷ codes "inputJson"
                  ∷ []));
            output =
                text_of host
                  (pick src (codes "output" ∷ codes "result" ∷ codes "output_text" ∷ []));
            error = tool_error (get (codes "error") src);
          })
        ]

abbrev conversation_keys : List Text
conversation_keys = codes "conversation_id" ∷ codes "conversationId" ∷ []

abbrev model_keys : List Text
model_keys = codes "model" ∷ codes "model_name" ∷ codes "modelName" ∷ []

or_nested : Option Text → Option Text → Option Text
or_nested none b = b
or_nested (some a) b = some a

unfoldable pub classify_init : Fields → InitEvent
unfolding or_nested as_object
classify_init o =
    let init : Fields = elim (as_object (get (codes "init") o)) [ none ↦ end | some fs ↦ fs ] in
    record {
      conversation_id =
          or_nested
            (as_filled (
              pick o (
                codes "conversation_id"
                ∷ codes "conversationId"
                ∷ codes "session_id"
                ∷ codes "sessionId"
                ∷ [])))
            (as_filled (pick init conversation_keys));
      model = as_string (or_else (pick o model_keys) (pick init model_keys));
    }

-- `String(idxV)`, or of the sequence number.
step_key : ℕ → Option Json → Text
step_key seq (some (num n)) = decimal n
step_key seq (some (str s)) = s
step_key seq _ = decimal seq

-- The nested payload, unless it has no fields.
unfoldable pub step_source : Fields → Fields
unfolding as_object
step_source o =
    elim (as_object (pick o (codes "step_update" ∷ codes "stepUpdate" ∷ codes "step" ∷ []))) [
      | none ↦ o
      | some end ↦ o
      | some (field k v rest) ↦ field k v rest
    ]

is_tool_step : AgyStepKind → Bool
is_tool_step tool_step = true
is_tool_step _ = false

usage_of : Option Json → Option RawUsage
usage_of (some (obj fs)) = some (parse_usage (some (obj fs)))
usage_of (some (arr xs)) = some (parse_usage (some (arr xs)))
usage_of _ = none

unfoldable pub classify_step : Host → ℕ → Fields → StepEvent
unfolding step_key is_tool_step usage_of
classify_step host seq o =
    let src = step_source o in
    let kind =
      normalize_step_kind host
        (pick src (codes "step_type" ∷ codes "stepType" ∷ codes "type" ∷ [])) in
    let delta = extract_text_delta src in
    record {
      step_key = step_key seq (
          pick src (
            codes "step_index"
            ∷ codes "stepIndex"
            ∷ codes "idx"
            ∷ codes "index"
            ∷ codes "step_idx"
            ∷ codes "stepIdx"
            ∷ codes "id"
            ∷ codes "step_id"
            ∷ codes "stepId"
            ∷ []));
      step_kind = kind;
      text = elim delta [ some d ↦ d | none ↦ extract_text src ];
      fragment = elim delta [ some d ↦ true | none ↦ false ];
      tool = if is_tool_step kind then extract_tool host src else none;
      state = as_string (pick src (codes "state" ∷ []));
      usage = usage_of (pick src (codes "usage" ∷ []));
    }

-- `String(v)`
string_of : Host → Json → Text
string_of host null = codes "null"
string_of host (bool true) = codes "true"
string_of host (bool false) = codes "false"
string_of host (num n) = decimal n
string_of host (str s) = s
string_of host (arr xs) = host.to_string (arr xs)
string_of host (obj fs) = host.to_string (obj fs)

result_ok : Host → Option Json → Option Json → Bool
unfolding string_of
result_ok host none error = not (truthy error)
result_ok host (some status) error =
    not (eq_text (host.to_upper_case (string_of host status)) (codes "ERROR"))

unfoldable pub or_empty : Option Text → Text
or_empty none = []
or_empty (some s) = s

-- `(o.result ?? o)`, and `{}` where that is no object.
result_source : Fields → Fields
result_source o = elim (present (get (codes "result") o)) [
  | none ↦ o
  | some v ↦ elim (as_object (some v)) [ none ↦ end | some fs ↦ fs ]
]

unfoldable pub classify_result : Host → Fields → ResultEvent
unfolding result_ok or_empty result_source
classify_result host o =
    let inner = result_source o in
    let error = pick inner (codes "error" ∷ codes "error_message" ∷ codes "errorMessage" ∷ []) in
    record {
      conversation_id = or_empty (as_string (pick inner conversation_keys));
      ok = result_ok host (pick inner (codes "status" ∷ [])) error;
      response = or_empty (
          as_string (
            pick inner (
              codes "structured_output" ∷ codes "response" ∷ codes "text" ∷ codes "content" ∷ [])));
      error = as_string error;
      usage = parse_usage (get (codes "usage") inner);
    }

-- What a call comes to: it can run out of fuel, or tell that the value is no event.
pub data Classified : Type 0 where
  out_of_fuel : Classified
  ignored : Classified
  classified : AgyEvent → Classified

-- The discriminator: the event, or the type, or none.
unfoldable pub name_of : Option Json → Option Json → Text
unfolding as_string
name_of event type = elim (as_string event) [ some s ↦ s | none ↦ or_empty (as_string type) ]

unfoldable pub event_name : Fields → Text
unfolding name_of
event_name o = name_of (get (codes "event") o) (get (codes "type") o)

unfoldable pub is_defined : Option Json → Bool
is_defined none = false
is_defined (some v) = true

unfoldable pub is_object_or_array : Option Json → Bool
is_object_or_array v = elim (as_object_or_array v) [ none ↦ false | some fs ↦ true ]

-- The three shapes of a line without a known event.
unfoldable pub is_result_shape : Fields → Bool
unfolding is_defined is_object_or_array
is_result_shape o =
    is_object_or_array (get (codes "usage") o)
    && (is_defined (get (codes "status") o) || is_defined (get (codes "response") o))

unfoldable pub is_step_shape : Fields → Bool
unfolding is_defined
is_step_shape o = is_defined (get (codes "step_type") o) || is_defined (get (codes "stepType") o)

unfoldable pub nested_step : Fields → Option Json
nested_step o = pick o (codes "step_update" ∷ codes "stepUpdate" ∷ [])

-- `{ event: name, ...o }`: an event of `o` itself stays, and stands where the literal put the key.
unfoldable pub with_event : Text → Fields → Fields
with_event name o = elim (get (codes "event") o) [
  | none ↦ field (codes "event") (str name) o
  | some v ↦ field (codes "event") v o
]

-- The call of itself on the object that a shape is rewritten to.
unfoldable pub infer_as : (Fields → Classified) → Bool → Bool → Option Json → Fields → Classified
unfolding is_object_or_array
infer_as again true step_shape nested o =
    again (field (codes "event") (str (codes "result")) (field (codes "result") (obj o) end))
infer_as again false true nested o = again (with_event (codes "step_update") o)
infer_as again false false none o = ignored
infer_as again false false (some v) o =
    let rewritten =
      again
        (field (codes "event") (str (codes "step_update")) (field (codes "step_update") v end)) in
    if is_object_or_array (some v) then rewritten else ignored

unfoldable pub infer : (Fields → Classified) → Fields → Classified
unfolding infer_as
infer again o = infer_as again (is_result_shape o) (is_step_shape o) (nested_step o) o

-- The three names of events, each in its spellings, and all others.
pub data EventName : Type 0 where
  init_name : EventName
  step_name : EventName
  result_name : EventName
  other_name : EventName

unfoldable pub event_kind : Text → EventName
event_kind name =
    if is_one_of name (codes "init" ∷ codes "initialized" ∷ [])
    then init_name
    else if is_one_of name (codes "step_update" ∷ codes "step" ∷ codes "stepUpdate" ∷ [])
    then step_name
    else if is_one_of name (codes "result" ∷ codes "done" ∷ codes "final" ∷ [])
    then result_name
    else other_name

unfoldable pub classify_as : Host → ℕ → EventName → Classified → Fields → Classified
classify_as host seq init_name inferred o = classified (init_event (classify_init o))
classify_as host seq step_name inferred o = classified (step_event (classify_step host seq o))
classify_as host seq result_name inferred o = classified (result_event (classify_result host o))
classify_as host seq other_name inferred o = inferred

-- Each round of fuel is a call of the function by itself.
unfoldable pub classify_object : Host → ℕ → ℕ → Fields → Classified
unfolding event_name event_kind classify_as infer
classify_object host seq zero o = out_of_fuel
classify_object host seq (suc fuel) o =
    classify_as host seq (event_kind (event_name o)) (infer (classify_object host seq fuel) o) o

unfoldable pub classify_event : Host → ℕ → ℕ → Json → Classified
classify_event host seq fuel (obj o) = classify_object host seq fuel o
classify_event host seq fuel _ = ignored
