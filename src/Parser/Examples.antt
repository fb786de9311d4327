-- ===== src/Parser/Examples.antt =====
-- A short output in chunks, and an object of src/host/parser.ts that is rewritten to itself.
use agy_proxy.Prelude.{
  true, false, not, List, [], ◌∷◌, none, Text, codes, eq_text, ◌≡◌, ◌≤◌, refl, arith, length,
}
use agy_proxy.Parser.{num, str, Fields, end, field, Host, get, is_one_of, as_object_or_array}
use agy_proxy.Parser.Classify.{
  classify_object, event_kind, event_name, is_result_shape, is_step_shape,
}
use agy_proxy.Parser.Endings.{is_ended, is_rewritten_to_itself, classify_ends_iff}
use agy_proxy.Parser.Feed.{feed, new_parser}
use agy_proxy.Parser.Chunks.{feed_all, joined, feed_in_chunks}

abbrev host : Host
host = record {
  parse = λ _. none;
  stringify = λ _. [];
  to_string = λ _. [];
  to_lower_case = λ s. s;
  to_upper_case = λ s. s;
  looks_like_auth_failure = λ _. false;
  extract_auth_url = λ _. none;
}

abbrev chunks : List Text
chunks = codes "a" ∷ (98 ∷ 10 ∷ 99 ∷ []) ∷ (100 ∷ 10 ∷ []) ∷ []

chunks_fit : length (joined chunks) ≤ 1048576
unfolding joined
chunks_fit = ground arith

feed_in_chunks_example : feed_all host chunks new_parser ≡ feed host (joined chunks) new_parser
feed_in_chunks_example = feed_in_chunks host chunks chunks_fit

abbrev rewritten : Fields
rewritten = field (codes "event") (str (codes "x")) (field (codes "step_type") (num 1) end)

classify_ends_iff_example :
    is_ended (classify_object host 0 2 rewritten) ≡ not (is_rewritten_to_itself rewritten)
classify_ends_iff_example = classify_ends_iff host 0 0 rewritten

is_rewritten : is_rewritten_to_itself rewritten ≡ true
unfolding is_rewritten_to_itself event_kind is_one_of eq_text event_name get is_result_shape
    as_object_or_array is_step_shape
is_rewritten = refl
