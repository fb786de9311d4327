-- ===== src/Guards/Examples.antt =====
-- Streams and budgets of src/server/stream-guards.ts run on small inputs.
use agy_proxy.Prelude.{List, [], ◌∷◌, some, Text, codes, index_of, eq_text, ◌≡◌, refl}
use agy_proxy.Guards.{close, push, new_holdback, earliest_match, earliest_from, hold_from}
use agy_proxy.Guards.Holdback.{Conserves, concat, feed, stream, stream-Conserves}

abbrev stops : List Text
stops = codes "STOP" ∷ []

-- The stop is split between two deltas.
abbrev deltas : List Text
deltas = codes "ab S" ∷ codes "TOP cd" ∷ codes "ef" ∷ []

stream_of_deltas : stream stops deltas ≡ (codes "ab ", some (codes "STOP"))
unfolding stream feed close push new_holdback earliest_match earliest_from index_of hold_from
    eq_text
stream_of_deltas = refl

stream-Conserves_example : Conserves (concat deltas) (codes "ab ") (some (codes "STOP")) []
unfolding stream feed close push new_holdback earliest_match earliest_from index_of hold_from
    eq_text
stream-Conserves_example = stream-Conserves stops deltas
