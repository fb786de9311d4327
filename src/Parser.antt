-- ===== src/Parser.antt =====
-- src/host/parser.ts: the parser of agy's stream-json output, and the JSON values that it reads. A
-- number is a natural number, as agy's step types, indices and counts are.
pub mod Classify
pub mod Feed
pub mod Chunks
pub mod Endings
pub mod Examples
use agy_proxy.Prelude.{
  ℕ, Bool, true, false, List, [], ◌∷◌, Option, none, some, Text, codes, eq_text, ◌==◌,
  if◌then◌else◌,
}
use agy_proxy.Mapper.{
  RawUsage, AgyStepKind, text_step, thinking_step, tool_step, title_step, subagent_step,
  user_input_step, unknown_step,
}

mutual
  pub data Json : Type 0 where
    null : Json
    bool : Bool → Json
    num : ℕ → Json
    str : Text → Json
    arr : Items → Json
    obj : Fields → Json

  pub data Items : Type 0 where
    nil : Items
    item : Json → Items → Items

  pub data Fields : Type 0 where
    end : Fields
    field : Text → Json → Fields → Fields

-- JavaScript's own functions: `JSON.parse`, which throws for `none`, `JSON.stringify`, `String` of an
-- array or object, the case mappings of strings, and the tests by the regular expressions of
-- `looksLikeAuthFailure` and `extractAuthUrl` (src/common/types.ts).
pub record Host : Type 0 where
  pub parse : Text → Option Json
  pub stringify : Json → Text
  pub to_string : Json → Text
  pub to_lower_case : Text → Text
  pub to_upper_case : Text → Text
  pub looks_like_auth_failure : Text → Bool
  pub extract_auth_url : Text → Option Text

-- `obj[key]`; `none` is undefined.
unfoldable pub get : Text → Fields → Option Json
get key end = none
get key (field k v rest) = let later = get key rest in if eq_text k key then some v else later

-- The value that is neither undefined nor null.
unfoldable pub present : Option Json → Option Json
present none = none
present (some null) = none
present (some (bool b)) = some (bool b)
present (some (num n)) = some (num n)
present (some (str s)) = some (str s)
present (some (arr xs)) = some (arr xs)
present (some (obj fs)) = some (obj fs)

-- `a ?? b`, where `a` is present already or absent.
abbrev pub or_else : Option Json → Option Json → Option Json
or_else none b = b
or_else (some a) b = some a

unfoldable pub pick : Fields → List Text → Option Json
unfolding get present
pick o [] = none
pick o (k ∷ keys) = or_else (present (get k o)) (pick o keys)

unfoldable pub is_one_of : Text → List Text → Bool
is_one_of s [] = false
is_one_of s (t ∷ rest) = let later = is_one_of s rest in if eq_text s t then true else later

unfoldable pub numeric_step_type : ℕ → AgyStepKind
numeric_step_type n =
    if n == 14
    then thinking_step
    else if n == 15
    then text_step
    else if n == 23
    then title_step
    else if is_tool
    then tool_step
    else unknown_step
  where
    among : List ℕ → Bool
    among [] = false
    among (k ∷ rest) = let later = among rest in if n == k then true else later

    is_tool : Bool
    is_tool = among (5 ∷ 7 ∷ 8 ∷ 9 ∷ 17 ∷ 21 ∷ 33 ∷ 101 ∷ 132 ∷ 138 ∷ 139 ∷ [])

abbrev text_step_types : List Text
text_step_types =
    codes "agent_text"
    ∷ codes "agenttext"
    ∷ codes "text"
    ∷ codes "model_response"
    ∷ codes "modelresponse"
    ∷ codes "message"
    ∷ codes "response_text"
    ∷ codes "agent_response"
    ∷ codes "agentresponse"
    ∷ []

abbrev tool_step_types : List Text
tool_step_types =
    codes "tool_call"
    ∷ codes "toolcall"
    ∷ codes "tool"
    ∷ codes "tool_use"
    ∷ codes "tooluse"
    ∷ codes "tool_run"
    ∷ codes "toolrun"
    ∷ codes "function_call"
    ∷ []

named_step_type : Text → AgyStepKind
unfolding is_one_of
named_step_type s =
    if is_one_of s text_step_types
    then text_step
    else if is_one_of s (codes "thinking" ∷ codes "thought" ∷ codes "reasoning" ∷ [])
    then thinking_step
    else if is_one_of s tool_step_types
    then tool_step
    else if is_one_of s (codes "title" ∷ [])
    then title_step
    else if is_one_of s (codes "subagent" ∷ codes "subagent_message" ∷ codes "subagent_result" ∷ [])
    then subagent_step
    else if is_one_of s (codes "user_input" ∷ codes "userinput" ∷ codes "user_message" ∷ [])
    then user_input_step
    else unknown_step

unfoldable pub normalize_step_kind : Host → Option Json → AgyStepKind
unfolding named_step_type numeric_step_type
normalize_step_kind host (some (num n)) = numeric_step_type n
normalize_step_kind host (some (str s)) = named_step_type (host.to_lower_case s)
normalize_step_kind host _ = unknown_step

-- `typeof v === 'string' ? v : undefined`
unfoldable pub as_string : Option Json → Option Text
as_string (some (str s)) = some s
as_string _ = none

-- A string that is not empty.
unfoldable pub as_filled : Option Json → Option Text
as_filled (some (str [])) = none
as_filled (some (str (c ∷ s))) = some (c ∷ s)
as_filled _ = none

-- `v && typeof v === 'object' && !Array.isArray(v)`
unfoldable pub as_object : Option Json → Option Fields
as_object (some (obj fs)) = some fs
as_object _ = none

-- An array passes `typeof v === 'object'`, and has none of the names that are asked for.
unfoldable pub as_object_or_array : Option Json → Option Fields
as_object_or_array (some (obj fs)) = some fs
as_object_or_array (some (arr xs)) = some end
as_object_or_array _ = none

unfoldable pub truthy : Option Json → Bool
truthy none = false
truthy (some null) = false
truthy (some (bool b)) = b
truthy (some (num n)) = if n == 0 then false else true
truthy (some (str [])) = false
truthy (some (str (c ∷ s))) = true
truthy (some (arr xs)) = true
truthy (some (obj fs)) = true

as_number : Option Json → Option ℕ
as_number (some (num n)) = some n
as_number _ = none

unfoldable pub parse_usage : Option Json → RawUsage
unfolding as_object_or_array as_number
parse_usage v =
    let o : Fields = elim (as_object_or_array v) [ none ↦ end | some fs ↦ fs ] in
    record {
      input_tokens = as_number (get (codes "input_tokens") o);
      output_tokens = as_number (get (codes "output_tokens") o);
      thinking_tokens = as_number (get (codes "thinking_tokens") o);
      cache_read_tokens = as_number (get (codes "cache_read_tokens") o);
      cache_write_tokens = as_number (get (codes "cache_write_tokens") o);
      total_tokens = as_number (get (codes "total_tokens") o);
    }
