-- ===== src/Prelude/Maps.antt =====
-- `Map` with texts as keys, in the order of insertion, and the laws of its operations.
use mathlib.Core.Path.{◌≡◌, refl, ap, sym, ◌∙◌}
use mathlib.Core.Bool.{true, false}
use mathlib.Core.List.{List, [], ◌∷◌}
use mathlib.Core.Option.{Option, none, some}
use mathlib.Core.Logic.{◌↔◌}
use native.Mathlib.Omega.{arith}
use agy_proxy.Prelude.Tests.{if◌then◌else◌}
use agy_proxy.Prelude.Texts.{Text, eq_text, eq_text→eq, eq_text_refl}

module _ {A : Type 0} where
  unfoldable pub get_key : Text → List (Text × A) → Option A
  get_key key [] = none
  get_key key ((k, v) ∷ rest) =
      let later = get_key key rest in if eq_text k key then some v else later

  unfoldable pub set_key : Text → A → List (Text × A) → List (Text × A)
  set_key key v [] = (key, v) ∷ []
  set_key key v ((k, w) ∷ rest) =
      let later = set_key key v rest in if eq_text k key then (k, v) ∷ rest else (k, w) ∷ later

  -- A key stands once in a map; here every copy goes.
  unfoldable pub delete_key : Text → List (Text × A) → List (Text × A)
  delete_key key [] = []
  delete_key key ((k, w) ∷ rest) =
      let later = delete_key key rest in if eq_text k key then later else (k, w) ∷ later

pub eq_text_iff : (s t : Text) → (eq_text s t ≡ true) ↔ (s ≡ t)
eq_text_iff s t = (eq_text→eq s t, λ p. ap (eq_text s) (sym p) ∙ eq_text_refl s)

pub same_key : (k key j : Text) → eq_text k key ≡ true → eq_text k j ≡ eq_text key j
same_key k key j e = ap (λ s. eq_text s j) (eq_text→eq k key e)

pub other_key :
    (k key j : Text) → eq_text k key ≡ false → eq_text k j ≡ true → eq_text key j ≡ false
other_key k key j e h = ground (arith, e, h, eq_text_iff k j, eq_text_iff key j, eq_text_iff k key)

module _ {A : Type 0} where
  pub get-set :
      (key j : Text) (v : A) (c : List (Text × A))
      → get_key j (set_key key v c) ≡ (if eq_text key j then some v else get_key j c)
  unfolding get_key set_key
  get-set key j v [] = refl
  get-set key j v ((k, w) ∷ c) =
      ground (arith, get-set key j v c, same_key k key j, other_key k key j)

  pub get-delete :
      (key j : Text) (c : List (Text × A))
      → get_key j (delete_key key c) ≡ (if eq_text key j then none else get_key j c)
  unfolding get_key delete_key
  get-delete key j [] = ground arith
  get-delete key j ((k, w) ∷ c) =
      ground (arith, get-delete key j c, same_key k key j, other_key k key j)
