-- ===== src/Pool/Lookup.antt =====
-- What the list operations of src/host/pool.ts do to the account under each id.
use agy_proxy.Prelude.{
  suc, ◌≡◌, refl, ◌∙◌, inl, inr, List, [], ◌∷◌, ◌++◌, Option, none, some, String, length, str_eq,
  str_eq_iff, arith, if◌then◌else◌, Bool-cases, Option-cases,
}
use agy_proxy.Pool.{ModelFamily, ManagedAccount, find, modify}
use agy_proxy.Pool.Manager.{without}
use agy_proxy.Pool.Updates.{reordered, uncooled, uncool_all}
use agy_proxy.Pool.Wellformed.{DistinctIds, find-Has}

abbrev pub option_map :
    (ManagedAccount → ManagedAccount) → Option ManagedAccount → Option ManagedAccount
option_map f none = none
option_map f (some a) = some (f a)

pub find-modify :
    (id j : String) (f : ManagedAccount → ManagedAccount)
    → ((a : ManagedAccount) → (f a).id ≡ a.id)
    → (xs : List ManagedAccount)
    → find j (modify id f xs) ≡ (if str_eq id j then option_map f (find j xs) else find j xs)
unfolding find modify
find-modify id j f keeps [] = ground arith
find-modify id j f keeps (x ∷ xs) = ground (
  arith,
  keeps x,
  find-modify id j f keeps xs,
  str_eq_iff x.id id,
  str_eq_iff x.id j,
  str_eq_iff id j,
  str_eq_iff (f x).id j,
)

pub find-append :
    (j : String) (xs : List ManagedAccount) (a : ManagedAccount)
    → find j (xs ++ a ∷ [])
      ≡ elim (find j xs) [ none ↦ (if str_eq a.id j then some a else none) | some b ↦ some b ]
unfolding find
find-append j [] a = refl
find-append j (x ∷ xs) a = ground (arith, find-append j xs a)

pub find-without :
    (id j : String) (xs : List ManagedAccount)
    → DistinctIds xs
    → find j (without id xs) ≡ (if str_eq id j then none else find j xs)
unfolding find without
find-without id j [] d = ground arith
find-without id j (x ∷ xs) d =
    ground
      (arith, find-without id j xs d.1, d.0, str_eq_iff x.id id, str_eq_iff x.id j, str_eq_iff id j)

pub DistinctIds-without :
    (id : String) (xs : List ManagedAccount) → DistinctIds xs → DistinctIds (without id xs)
unfolding without
DistinctIds-without id [] d = tt
DistinctIds-without id (x ∷ xs) d = elim (Bool-cases (str_eq x.id id)) [
  | inl e ↦ rw e d.1
  | inr e ↦ rw e (ground (arith, find-without id x.id xs d.1, d.0), DistinctIds-without id xs d.1)
]

pub DistinctIds-modify :
    (id : String) (f : ManagedAccount → ManagedAccount)
    → ((a : ManagedAccount) → (f a).id ≡ a.id)
    → (xs : List ManagedAccount) → DistinctIds xs
    → DistinctIds (modify id f xs)
unfolding modify
DistinctIds-modify id f keeps [] d = tt
DistinctIds-modify id f keeps (x ∷ xs) d = elim (Bool-cases (str_eq x.id id)) [
  | inl e ↦ rw e (rw (keeps x) d.0, d.1)
  | inr e ↦
      rw e
        (find-modify id x.id f keeps xs ∙ ground (arith, d.0), DistinctIds-modify id f keeps xs d.1)
]

pub DistinctIds-append :
    (xs : List ManagedAccount) (a : ManagedAccount)
    → find a.id xs ≡ none
    → DistinctIds xs
    → DistinctIds (xs ++ a ∷ [])
unfolding find
DistinctIds-append [] a fresh d = (refl, tt)
DistinctIds-append (x ∷ xs) a fresh d = (
  find-append x.id xs a ∙ ground (arith, fresh, d.0, str_eq_iff x.id a.id, str_eq_iff a.id x.id),
  DistinctIds-append xs a (ground (arith, fresh)) d.1,
)

-- A reordering leaves under each id the account that was there.
pub find-reordered :
    (ids : List String) (j : String) (xs : List ManagedAccount)
    → DistinctIds xs
    → find j (reordered ids xs) ≡ find j xs
unfolding reordered find
find-reordered [] j xs d = refl
find-reordered (id ∷ ids) j xs d = elim (Option-cases (find id xs)) [
  | inl e ↦ rw (e, reordered) (find-reordered ids j xs d)
  | inr (a, e) ↦
      let rest = find-reordered ids j (without id xs) (DistinctIds-without id xs d) in
      let named = (find-Has id xs a e).1 in
      rw (e, reordered)
        (ground (
          arith,
          rest,
          find-without id j xs d,
          e,
          named,
          str_eq_iff a.id id,
          str_eq_iff a.id j,
          str_eq_iff id j,
        ))
]

pub DistinctIds-reordered :
    (ids : List String) (xs : List ManagedAccount) → DistinctIds xs → DistinctIds (reordered ids xs)
unfolding reordered
DistinctIds-reordered [] xs d = d
DistinctIds-reordered (id ∷ ids) xs d = elim (Option-cases (find id xs)) [
  | inl e ↦ rw (e, reordered) (DistinctIds-reordered ids xs d)
  | inr (a, e) ↦
      let d' = DistinctIds-without id xs d in
      let named = (find-Has id xs a e).1 in
      rw (e, reordered)
        (
          find-reordered ids a.id (without id xs) d'
              ∙ ground
                  (arith, find-without id a.id xs d, named, str_eq_iff a.id id, str_eq_iff id a.id),
          DistinctIds-reordered ids (without id xs) d',
        )
]

length-without :
    (id : String) (xs : List ManagedAccount) (a : ManagedAccount)
    → find id xs ≡ some a
    → suc (length (without id xs)) ≡ length xs
unfolding find without
length-without id [] a e = cc
length-without id (x ∷ xs) a e = ground (arith, length-without id xs a)

pub length-reordered :
    (ids : List String) (xs : List ManagedAccount) → length (reordered ids xs) ≡ length xs
unfolding reordered
length-reordered [] xs = refl
length-reordered (id ∷ ids) xs = elim (Option-cases (find id xs)) [
  | inl e ↦ rw (e, reordered) (length-reordered ids xs)
  | inr (a, e) ↦
      rw (e, reordered)
        (omega (arith, length-reordered ids (without id xs), length-without id xs a e))
]

uncooled_id : (family : Option ModelFamily) (a : ManagedAccount) → (uncooled family a).id ≡ a.id
unfolding uncooled
uncooled_id none a = refl
uncooled_id (some family) a = refl

pub find-uncool_all :
    (family : Option ModelFamily) (j : String) (xs : List ManagedAccount)
    → find j (uncool_all family xs) ≡ option_map (uncooled family) (find j xs)
unfolding find uncool_all
find-uncool_all family j [] = refl
find-uncool_all family j (x ∷ xs) =
    ground (arith, find-uncool_all family j xs, uncooled_id family x)

pub DistinctIds-uncool_all :
    (family : Option ModelFamily) (xs : List ManagedAccount)
    → DistinctIds xs
    → DistinctIds (uncool_all family xs)
unfolding uncool_all
DistinctIds-uncool_all family [] d = tt
DistinctIds-uncool_all family (x ∷ xs) d = (
  rw (uncooled_id family x) (find-uncool_all family x.id xs ∙ ground (arith, d.0)),
  DistinctIds-uncool_all family xs d.1,
)
