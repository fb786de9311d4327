-- ===== src/Guards.antt =====
-- src/server/stream-guards.ts: the stop-sequence holdback and the output budget of a stream, and the
-- cut of a whole text, `applyStopWithHit` of src/server/openai-adapter.ts.
pub mod Holdback
pub mod Budget
pub mod Examples
use agy_proxy.Prelude.{
  ℕ, zero, suc, ◌+◌, ◌-◌, ◌≤◌, min, Bool, true, false, ◌&&◌, List, [], ◌∷◌, ◌++◌, Option, none,
  some, Text, length, take, drop, eq_text, index_of, ltb, leb, ◌==◌, if◌then◌else◌,
}
use agy_proxy.Tokens.{estimate_tokens}

pub record StopHoldback : Type 0 where
  pub stops : List Text
  pub buffer : Text
  pub matched : Option Text

-- `stops.filter((s) => s !== '')`
non_empty : List Text → List Text
non_empty [] = []
non_empty ([] ∷ rest) = non_empty rest
non_empty ((c ∷ s) ∷ rest) = (c ∷ s) ∷ non_empty rest

unfoldable pub new_holdback : List Text → StopHoldback
unfolding non_empty
new_holdback stops = record { stops = non_empty stops; buffer = []; matched = none }

pub record Hit : Type 0 where
  pub index : ℕ
  pub stop : Text

-- A later stop wins only by a smaller index.
better : Option Hit → Text → Option ℕ → Option Hit
better best s none = best
better none s (some i) = some (record { index = i; stop = s })
better (some h) s (some i) = if ltb i h.index then some (record { index = i; stop = s }) else some h

-- The loop of `#earliestMatch`, and of `applyStopWithHit`.
unfoldable pub earliest_from : Text → Option Hit → List Text → Option Hit
unfolding better
earliest_from text best [] = best
earliest_from text best (s ∷ rest) = earliest_from text (better best s (index_of text s)) rest

unfoldable pub earliest_match : StopHoldback → Option Hit
earliest_match h = earliest_from h.buffer none h.stops

-- `buffer.endsWith(s.slice(0, k))`
ends_with : Text → Text → Bool
ends_with text end =
    leb (length end) (length text) && eq_text (drop (length text - length end) text) end

-- The inner loop, from `k` down to `hold`.
longest_end : ℕ → ℕ → Text → Text → ℕ
unfolding ends_with
longest_end zero hold text s = hold
longest_end (suc k) hold text s =
    let shorter = longest_end k hold text s in
    if leb (suc k) hold then hold else if ends_with text (take (suc k) s) then suc k else shorter

-- The length of the longest end of the buffer that is a proper beginning of a stop.
unfoldable pub hold_from : Text → ℕ → List Text → ℕ
unfolding longest_end
hold_from text hold [] = hold
hold_from text hold (s ∷ rest) =
    hold_from text (longest_end (min (length s - 1) (length text)) hold text s) rest

emit : ℕ → StopHoldback → Text × StopHoldback
emit cut h = (take cut h.buffer, record h { buffer = drop cut h.buffer })

unfoldable pub drain : StopHoldback → Text × StopHoldback
unfolding emit
drain h = elim (earliest_match h) [
  | none ↦ emit (length h.buffer - hold_from h.buffer 0 h.stops) h
  | some hit ↦ emit hit.index (record h { matched = some hit.stop })
]

unfoldable pub push : Text → StopHoldback → Text × StopHoldback
unfolding drain
push text h = elim h.matched [
  | none ↦ drain (record h { buffer = h.buffer ++ text })
  | some _ ↦ ([], h)
]

unfoldable pub close : StopHoldback → Text × StopHoldback
close h = elim h.matched [
  | some _ ↦ ([], h)
  | none ↦ elim (earliest_match h) [
    | some hit ↦ (take hit.index h.buffer, record h { matched = some hit.stop; buffer = [] })
    | none ↦ (h.buffer, record h { buffer = [] })
  ]
]

-- The cut of a whole text.
unfoldable pub apply_stop_with_hit : Text → List Text → Text × Option Text
apply_stop_with_hit text stops = elim (earliest_from text none stops) [
  | none ↦ (text, none)
  | some hit ↦ (take hit.index text, some hit.stop)
]

pub record OutputBudget : Type 0 where
  pub max_tokens : ℕ
  pub spent : ℕ

-- True once the budget is exhausted.
unfoldable pub charge : Text → OutputBudget → Bool × OutputBudget
charge text b = if leb b.max_tokens b.spent then (true, b) else (
  leb b.max_tokens (b.spent + estimate_tokens text),
  record b { spent = b.spent + estimate_tokens text },
)
