-- ===== src/Prelude/Texts.antt =====
-- Texts as lists of UTF-16 code units, as JavaScript indexes them.
use Prim.Native.Nat.{ℕ, suc}
use Prim.Native.Char.{code}
use Prim.Native.String.{String}
use mathlib.Core.Path.{◌≡◌, refl, ap}
use mathlib.Core.Bool.{Bool, true, false, ◌&&◌}
use mathlib.Core.List.{List, [], ◌∷◌, ◌++◌}
use mathlib.Core.Option.{Option, none, some}
use mathlib.Core.Logic.{inl, inr}
use native.Mathlib.Omega.{arith}
use agy_proxy.Prelude.Tests.{◌==◌, if◌then◌else◌, Bool-cases, Option-cases}
use agy_proxy.Prelude.Lists.{length, take, drop}

abbrev pub Text : Type 0
Text = List ℕ

-- The code units of an ASCII literal.
abbrev pub codes : String → Text
codes String.[] = []
codes (String.◌∷◌ c s) = code c ∷ codes s

unfoldable pub eq_text : Text → Text → Bool
eq_text [] [] = true
eq_text [] (y ∷ ys) = false
eq_text (x ∷ xs) [] = false
eq_text (x ∷ xs) (y ∷ ys) = x == y && eq_text xs ys

pub eq_text_refl : (s : Text) → eq_text s s ≡ true
unfolding eq_text
eq_text_refl [] = refl
eq_text_refl (x ∷ s) = ground (arith, eq_text_refl s)

pub eq_text→eq : (s t : Text) → eq_text s t ≡ true → s ≡ t
unfolding eq_text
eq_text→eq [] [] h = refl
eq_text→eq [] (y ∷ t) h = cc
eq_text→eq (x ∷ s) [] h = cc
eq_text→eq (x ∷ s) (y ∷ t) h = ground (arith, eq_text→eq s t)

-- `text.startsWith(prefix)`
unfoldable pub starts_with : Text → Text → Bool
starts_with s [] = true
starts_with [] (y ∷ p) = false
starts_with (x ∷ s) (y ∷ p) = x == y && starts_with s p

pub starts_with-append : (p s : Text) → starts_with (p ++ s) p ≡ true
unfolding starts_with
starts_with-append [] s = refl
starts_with-append (x ∷ p) s = ground (arith, starts_with-append p s)

pub starts_with-split : (s p : Text) → starts_with s p ≡ true → s ≡ p ++ drop (length p) s
unfolding starts_with
starts_with-split s [] h = refl
starts_with-split [] (y ∷ p) h = cc
starts_with-split (x ∷ s) (y ∷ p) h = ground (arith, starts_with-split s p)

-- `text.indexOf(part)`; `none` is -1.
unfoldable pub index_of : Text → Text → Option ℕ
unfolding starts_with
index_of [] p = if starts_with [] p then some 0 else none
index_of (x ∷ s) p =
    let later : Option ℕ = elim (index_of s p) [ none ↦ none | some i ↦ some (suc i) ] in
    if starts_with (x ∷ s) p then some 0 else later

-- At the index that is found the part begins.
pub index_of-split :
    (s p : Text) (i : ℕ) → index_of s p ≡ some i → s ≡ take i s ++ (p ++ drop (length p) (drop i s))
unfolding index_of
index_of-split [] p i h = elim (Bool-cases (starts_with [] p)) [
  | inl e ↦
      let zero_index : i ≡ 0 = ground (arith, h, e) in rw zero_index (starts_with-split [] p e)
  | inr e ↦ absurd (ground (arith, h, e))
]
index_of-split (x ∷ s) p i h = elim (Bool-cases (starts_with (x ∷ s) p)) [
  | inl e ↦
      let zero_index : i ≡ 0 = ground (arith, h, e) in rw zero_index (starts_with-split (x ∷ s) p e)
  | inr e ↦ elim (Option-cases (index_of s p)) [
    | inl q ↦ absurd (ground (arith, h, e, q))
    | inr (j, q) ↦
        let next_index : i ≡ suc j = ground (arith, h, e, q) in
        rw next_index (ap (λ r. x ∷ r) (index_of-split s p j q))
  ]
]
