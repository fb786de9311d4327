-- ===== src/Guards/Budget.antt =====
-- The output budget of src/server/stream-guards.ts over the texts of one stream.
use agy_proxy.Prelude.{◌+◌, ◌<◌, ◌≤◌, ◌≡◌, Bool, List, [], ◌∷◌, Text, arith, leb, ℕ}
use agy_proxy.Tokens.{estimate_tokens}
use agy_proxy.Guards.{OutputBudget, charge}

-- Charges every text in turn; true when the last answer was.
unfoldable pub charge_all : List Text → Bool → OutputBudget → Bool × OutputBudget
charge_all [] over b = (over, b)
charge_all (t ∷ texts) over b = charge_all texts (charge t b).0 (charge t b).1

-- What the texts cost in all.
abbrev pub total : List Text → ℕ
total [] = 0
total (t ∷ texts) = estimate_tokens t + total texts

charge-spent :
    (t : Text) (b : OutputBudget)
    → (charge t b).1.max_tokens ≡ b.max_tokens
      × ((charge t b).0 ≡ leb b.max_tokens (charge t b).1.spent)
      × ((b.max_tokens ≤ b.spent) → (charge t b).1.spent ≡ b.spent)
      × ((b.spent < b.max_tokens) → (charge t b).1.spent ≡ b.spent + estimate_tokens t)
unfolding charge
charge-spent t b = ground arith

-- If the answer so far says whether what was spent reaches the maximum, the answer after any further
-- texts says whether that and their estimates in all reach it.
pub charges_add_up :
    (texts : List Text) (over : Bool) (b : OutputBudget)
    → over ≡ leb b.max_tokens b.spent
    → (charge_all texts over b).0 ≡ leb b.max_tokens (b.spent + total texts)
unfolding charge_all charge
charges_add_up [] over b h = ground (arith, h)
charges_add_up (t ∷ texts) over b h =
    ground (arith, h, charges_add_up texts (charge t b).0 (charge t b).1)
