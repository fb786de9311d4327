-- ===== src/Tokens/Estimate.antt =====
-- The estimate of src/server/tokens.ts against the counts of its characters.
use agy_proxy.Prelude.{
  ℕ, ◌+◌, ◌*◌, ◌/◌, ◌≤◌, ◌<◌, max, ◌≡◌, refl, ap, inl, inr, ◌⊎◌, ◌&&◌, Bool, true, false, not, [],
  ◌∷◌, Text, arith, if◌then◌else◌, Bool-cases, ltb, if-true, if-false,
}
use agy_proxy.Tokens.{
  other, class_of, is_cjk, is_space, is_high, is_low, between, Tally, tally, walk, start, round_up,
  estimate_tokens,
}

-- How many code units of a text pass a test.
unfoldable pub number : (ℕ → Bool) → Text → ℕ
number test [] = 0
number test (c ∷ text) = let rest = number test text in if test c then rest + 1 else rest

-- How many code units are a high surrogate with a low one next to it.
unfoldable pub pairs : Text → ℕ
pairs [] = 0
pairs (c ∷ []) = 0
pairs (c ∷ d ∷ rest) =
    let later = pairs (d ∷ rest) in if is_high c && is_low d then later + 1 else later

abbrev pub only_space : ℕ → Bool
only_space c = is_space c && not (is_cjk c)

abbrev pub is_plain : ℕ → Bool
is_plain c = not (is_space c) && not (is_cjk c)

-- In sixteenths of a token: 16 for a CJK character, 1 for white space, 4 for any other code unit.
unfoldable pub unit_weights : Text → ℕ
unit_weights text = 16 * number is_cjk text + number only_space text + 4 * number is_plain text

weight : Tally → ℕ
weight t = t.tokens + t.latin_run

no_units : unit_weights [] ≡ 0
unfolding unit_weights number
no_units = refl

other-weight : (t : Tally) → weight (tally other t) ≡ weight t + 4
unfolding tally weight
other-weight t = omega arith

rounded : (w : ℕ) → (16 * max 1 ((w + 8) / 16) ≤ w + 8) ⊎ ((max 1 ((w + 8) / 16) ≡ 1) × (w < 8))
rounded w = elim (Bool-cases (ltb w 8)) [
  | inl e ↦ inr (ground (arith, e))
  | inr e ↦ inl (ground (arith, e))
]

charge : ℕ → ℕ
charge c =
    (if is_cjk c then 16 else 0) + (if only_space c then 1 else 0) + (if is_plain c then 4 else 0)

tally-weight : (c : ℕ) (t : Tally) → weight (tally (class_of c) t) ≡ weight t + charge c
unfolding tally weight class_of charge
tally-weight c t = ground arith

unit_weights-cons : (c : ℕ) (text : Text) → unit_weights (c ∷ text) ≡ charge c + unit_weights text
unfolding unit_weights number charge
unit_weights-cons c text = ground arith

charge_plain : (c : ℕ) → is_cjk c ≡ false → is_space c ≡ false → charge c ≡ 4
unfolding charge
charge_plain c k s = ground (arith, k, s)

high_charge : (c : ℕ) → is_high c ≡ true → charge c ≡ 4
unfolding is_high is_cjk is_space between
high_charge c h = charge_plain c (ground (arith, h)) (ground (arith, h))

low_charge : (c : ℕ) → is_low c ≡ true → charge c ≡ 4
unfolding is_low is_cjk is_space between
low_charge c h = charge_plain c (ground (arith, h)) (ground (arith, h))

low_not_high : (c : ℕ) → is_low c ≡ true → is_high c ≡ false
unfolding is_low is_high
low_not_high c h = ground (arith, h)

-- A low surrogate begins no pair.
low-pairs : (d : ℕ) (rest : Text) → is_low d ≡ true → pairs (d ∷ rest) ≡ pairs rest
unfolding pairs
low-pairs d [] h = refl
low-pairs d (e ∷ rest) h = ground (arith, low_not_high d h)

both : (a b : Bool) → (a && b) ≡ true → (a ≡ true) × (b ≡ true)
both true true h = (refl, refl)
both true false h = absurd (ground (arith, h))
both false b h = absurd (ground (arith, h))

-- The total that the loop and its last addition come to, where a pair counts once.
walk-weight :
    (text : Text) (t : Tally) → weight (walk text t) + 4 * pairs text ≡ weight t + unit_weights text
unfolding walk pairs
walk-weight [] t = omega (arith, no_units)
walk-weight (c ∷ []) t = omega (arith, tally-weight c t, unit_weights-cons c [], no_units)
walk-weight (c ∷ d ∷ rest) t = elim (Bool-cases (is_high c && is_low d)) [
  | inl e ↦
      let (high, low) = both (is_high c) (is_low d) e in
      omega (
        arith,
        ap weight (
            if-true (is_high c && is_low d) (walk rest (tally other t))
              (walk (d ∷ rest) (tally (class_of c) t)) e),
        if-true (is_high c && is_low d) (pairs (d ∷ rest) + 1) (pairs (d ∷ rest)) e,
        low-pairs d rest low,
        walk-weight rest (tally other t),
        other-weight t,
        unit_weights-cons c (d ∷ rest),
        unit_weights-cons d rest,
        high_charge c high,
        low_charge d low,
      )
  | inr e ↦ omega (
    arith,
    ap weight (
        if-false (is_high c && is_low d) (walk rest (tally other t))
          (walk (d ∷ rest) (tally (class_of c) t)) e),
    if-false (is_high c && is_low d) (pairs (d ∷ rest) + 1) (pairs (d ∷ rest)) e,
    walk-weight (d ∷ rest) (tally (class_of c) t),
    tally-weight c t,
    unit_weights-cons c (d ∷ rest),
  )
]

-- The estimate of a text that is not empty is at least 1, and it is the nearest whole number, upwards
-- from a half, to its weight in tokens: 1 for a CJK character, a sixteenth for white space, a quarter
-- for any other character, where a surrogate pair is one character; with a weight below a half it is
-- 1.
pub estimate_reference :
    (c : ℕ) (text : Text)
    → (w : ℕ) × (w + 4 * pairs (c ∷ text) ≡ unit_weights (c ∷ text))
      × (1 ≤ estimate_tokens (c ∷ text))
      × (w + 8 < 16 * estimate_tokens (c ∷ text) + 16)
      × ((16 * estimate_tokens (c ∷ text) ≤ w + 8) ⊎ ((estimate_tokens (c ∷ text) ≡ 1) × (w < 8)))
unfolding estimate_tokens round_up weight start
estimate_reference c text = (
  weight (walk (c ∷ text) start),
  omega (arith, walk-weight (c ∷ text) start),
  omega arith,
  omega arith,
  rounded (weight (walk (c ∷ text) start)),
)
