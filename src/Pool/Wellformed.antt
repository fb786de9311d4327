-- ===== src/Pool/Wellformed.antt =====
-- Lists of accounts whose ids are distinct (src/host/pool.ts draws each id from the clock and a
-- random suffix).
use agy_proxy.Prelude.{
  ◌≡◌, refl, ap, ◌⊎◌, inl, inr, Bool, true, false, List, [], ◌∷◌, none, some, String, str_eq,
  str_eq_iff, arith, Bool-cases,
}
use text.Mathlib.TextPositions.{eq_refl}
use agy_proxy.Pool.{ModelFamily, same_family, ManagedAccount, find}
use agy_proxy.Pool.Select.{keep}

abbrev pub Has : ManagedAccount → List ManagedAccount → Type 0
Has a [] = ⊥
Has a (x ∷ xs) = (x ≡ a) ⊎ Has a xs

abbrev pub DistinctIds : List ManagedAccount → Type 0
DistinctIds [] = Unit
DistinctIds (a ∷ xs) = (find a.id xs ≡ none) × DistinctIds xs

pub find-Has :
    (id : String) (xs : List ManagedAccount) (a : ManagedAccount)
    → find id xs ≡ some a
    → Has a xs × (str_eq a.id id ≡ true)
unfolding find
find-Has id [] a h = cc
find-Has id (x ∷ xs) a h = elim (Bool-cases (str_eq x.id id)) [
  | inl e ↦ let same : x ≡ a = ground arith in (inl same, rw (← same) e)
  | inr e ↦ let there = find-Has id xs a (ground arith) in (inr there.0, there.1)
]

-- An account with an id that `find` misses is not there.
pub find-none-Has :
    (id : String) (xs : List ManagedAccount) (a : ManagedAccount)
    → find id xs ≡ none
    → Has a xs
    → str_eq a.id id ≡ false
unfolding find
find-none-Has id [] a h m = elim m [ ]
find-none-Has id (x ∷ xs) a h (inl e) = rw (← e) (ground arith)
find-none-Has id (x ∷ xs) a h (inr m) = find-none-Has id xs a (ground arith) m

pub find_self :
    (xs : List ManagedAccount) (a : ManagedAccount)
    → DistinctIds xs
    → Has a xs
    → find a.id xs ≡ some a
unfolding find
find_self [] a d m = elim m [ ]
find_self (x ∷ xs) a d (inl e) = rw (← e) (rw (eq_refl x.id))
find_self (x ∷ xs) a d (inr m) =
    let other = find-none-Has x.id xs a d.0 m in
    let flipped : str_eq x.id a.id ≡ false =
      ground (arith, str_eq_iff x.id a.id, str_eq_iff a.id x.id) in
    rw flipped (find_self xs a d.1 m)

-- Of two accounts with one id there is only one.
pub same_id :
    (xs : List ManagedAccount) (a b : ManagedAccount)
    → DistinctIds xs
    → Has a xs
    → Has b xs
    → str_eq a.id b.id ≡ true
    → a ≡ b
same_id xs a b d ha hb e =
    let ids : a.id ≡ b.id = (str_eq_iff a.id b.id).0 e in
    let fa = find_self xs a d ha in
    let fb = find_self xs b d hb in ground (arith, fa, fb, ap (λ i. find i xs) ids)

pub keep-Has :
    (p : ManagedAccount → Bool) (xs : List ManagedAccount) (a : ManagedAccount)
    → Has a (keep p xs)
    → (p a ≡ true) × Has a xs
unfolding keep
keep-Has p [] a h = elim h [ ]
keep-Has p (x ∷ xs) a h = elim (Bool-cases (p x)) [
  | inl e ↦
      let here_or_there : Has a (x ∷ keep p xs) = rw e at h in
      elim here_or_there [
        | inl q ↦ (rw (← q) e, inl q)
        | inr m ↦ let there = keep-Has p xs a m in (there.0, inr there.1)
      ]
  | inr e ↦ let there = keep-Has p xs a (rw e at h) in (there.0, inr there.1)
]

pub Has-keep :
    (p : ManagedAccount → Bool) (xs : List ManagedAccount) (a : ManagedAccount)
    → p a ≡ true
    → Has a xs
    → Has a (keep p xs)
unfolding keep
Has-keep p [] a h m = elim m [ ]
Has-keep p (x ∷ xs) a h (inl e) = let yes_x : p x ≡ true = rw e h in rw yes_x (inl e)
Has-keep p (x ∷ xs) a h (inr m) = elim (Bool-cases (p x)) [
  | inl e ↦ rw e (inr (Has-keep p xs a h m))
  | inr e ↦ rw e (Has-keep p xs a h m)
]

find-none-keep :
    (p : ManagedAccount → Bool) (xs : List ManagedAccount) (id : String)
    → find id xs ≡ none
    → find id (keep p xs) ≡ none
unfolding find keep
find-none-keep p [] id h = refl
find-none-keep p (x ∷ xs) id h = ground (arith, find-none-keep p xs id)

pub DistinctIds-keep :
    (p : ManagedAccount → Bool) (xs : List ManagedAccount)
    → DistinctIds xs
    → DistinctIds (keep p xs)
unfolding keep
DistinctIds-keep p [] d = tt
DistinctIds-keep p (x ∷ xs) d = ground (arith, DistinctIds-keep p xs d.1, find-none-keep p xs x.id)

pub same_family_refl : (family : ModelFamily) → same_family family family ≡ true
same_family_refl ModelFamily.google = refl
same_family_refl ModelFamily.anthropic = refl
same_family_refl ModelFamily.openai = refl
same_family_refl ModelFamily.unknown = refl
