-- ===== src/Tokens/Examples.antt =====
-- Runs of the estimate of src/server/tokens.ts and of the budget of src/server/max-tokens.ts.
use agy_proxy.Prelude.{ℕ, ◌+◌, ◌*◌, ◌≤◌, ◌<◌, ◌≡◌, ◌⊎◌, refl, [], ◌∷◌, some, codes, Text}
use agy_proxy.Tokens.{estimate_tokens, resolve_effective_max_tokens}
use agy_proxy.Tokens.Estimate.{pairs, unit_weights, estimate_reference}

hello : estimate_tokens (codes "hello world, again") ≡ 4
unfolding estimate_tokens
hello = refl

-- An emoji and two CJK characters.
mixed : estimate_tokens (0xd83d ∷ 0xde00 ∷ 0x4e2d ∷ 0x6587 ∷ []) ≡ 2
unfolding estimate_tokens
mixed = refl

lifted : resolve_effective_max_tokens (some 1024) 65_536 ≡ some 65_536
unfolding resolve_effective_max_tokens
lifted = refl

-- An emoji and a CJK character.
abbrev two_points : Text
two_points = 0xd83d ∷ 0xde00 ∷ 0x4e2d ∷ []

estimate_reference_example :
    (w : ℕ) × (w + 4 * pairs two_points ≡ unit_weights two_points)
    × (1 ≤ estimate_tokens two_points)
    × (w + 8 < 16 * estimate_tokens two_points + 16)
    × ((16 * estimate_tokens two_points ≤ w + 8) ⊎ ((estimate_tokens two_points ≡ 1) × (w < 8)))
estimate_reference_example = estimate_reference 0xd83d (0xde00 ∷ 0x4e2d ∷ [])
