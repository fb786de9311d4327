-- ===== src/Pool/Choice.antt =====
-- The choice among the candidates in `selectAccount` of src/host/pool.ts.
use agy_proxy.Prelude.{
  ℕ, zero, suc, ◌+◌, ◌-◌, ◌%◌, ◌≡◌, refl, sym, subst, inl, inr, Bool, true, false, List, [], ◌∷◌,
  Option, none, some, String, length, str_eq, ltb, arith, if◌then◌else◌, Bool-cases, Option-cases,
}
use agy_proxy.Pool.{ModelFamily, ManagedAccount, Mode, sequential, round_robin}
use agy_proxy.Pool.Manager.{AccountPoolManager}
use agy_proxy.Pool.Select.{
  keep, least_recent, get_elem?, listed, index_from, advance, next_account, active_of, sticky,
  move_on, drain, choose_by,
}
use agy_proxy.Pool.Wellformed.{Has, DistinctIds, find-Has, same_id, keep-Has}

pick-Has :
    (b : Bool) (r best x : ManagedAccount) (xs : List ManagedAccount)
    → Has r ((if b then x else best) ∷ xs)
    → Has r (best ∷ x ∷ xs)
pick-Has true r best x xs h = inr h
pick-Has false r best x xs (inl e) = inl e
pick-Has false r best x xs (inr m) = inr (inr m)

least_recent-Has :
    (xs : List ManagedAccount) (best : ManagedAccount) → Has (least_recent best xs) (best ∷ xs)
unfolding least_recent
least_recent-Has [] best = inl refl
least_recent-Has (x ∷ xs) best = pick-Has _ _ best x xs (least_recent-Has xs _)

get_elem?-Has :
    (xs : List ManagedAccount) (i : ℕ) (a : ManagedAccount) → get_elem? xs i ≡ some a → Has a xs
unfolding get_elem?
get_elem?-Has [] i a h = cc
get_elem?-Has (x ∷ xs) zero a h = inl (ground arith)
get_elem?-Has (x ∷ xs) (suc i) a h = inr (get_elem?-Has xs i a h)

listed-Has :
    (id : String) (cs : List ManagedAccount)
    → listed id cs ≡ true
    → (c : ManagedAccount) × Has c cs × (str_eq c.id id ≡ true)
unfolding listed
listed-Has id [] h = cc
listed-Has id (c ∷ cs) h = elim (Bool-cases (str_eq c.id id)) [
  | inl e ↦ (c, inl refl, e)
  | inr e ↦ let (d, there, same) = listed-Has id cs (ground arith) in (d, inr there, same)
]

-- The candidates are accounts, and `p` is what makes an account a candidate.
module _ (p : ManagedAccount → Bool) (accounts : List ManagedAccount)
    (distinct : DistinctIds accounts) where
  listed_candidate :
      (a : ManagedAccount)
      → Has a accounts
      → listed a.id (keep p accounts) ≡ true
      → Has a (keep p accounts)
  listed_candidate a h l =
      let (c, there, same) = listed-Has a.id (keep p accounts) l in
      let c≡a = same_id accounts c a distinct (keep-Has p accounts c there).1 h same in
      rw (← c≡a) there

  advance-Has :
      (left i current : ℕ) (start : ManagedAccount)
      → Has start (keep p accounts)
      → Has (advance left i current accounts (keep p accounts) start) (keep p accounts)
  unfolding advance
  advance-Has zero i current start h = h
  advance-Has (suc left) i current start h =
      elim (Option-cases (get_elem? accounts ((current + i) % length accounts))) [
        | inl e ↦ rw (e, advance) (advance-Has left (i + 1) current start h)
        | inr (a, e) ↦ elim (Bool-cases (listed a.id (keep p accounts))) [
          | inl l ↦ rw (e, advance, l) (listed_candidate a (get_elem?-Has accounts _ a e) l)
          | inr l ↦ rw (e, advance, l) (advance-Has left (i + 1) current start h)
        ]
      ]

  next_account-Has :
      (active : Option String) (first : ManagedAccount)
      → Has first (keep p accounts)
      → Has (next_account active accounts first (keep p accounts)) (keep p accounts)
  unfolding next_account
  next_account-Has none first h = h
  next_account-Has (some id) first h = elim (Option-cases (index_from 0 id accounts)) [
    | inl e ↦ rw (e, next_account) h
    | inr (current, e) ↦ rw (e, next_account) (advance-Has (length accounts - 1) 1 current first h)
  ]

  sticky-Has :
      (active : Option String) (a : ManagedAccount)
      → sticky active (keep p accounts) ≡ some a
      → Has a (keep p accounts)
  unfolding sticky
  sticky-Has none a h = cc
  sticky-Has (some id) a h = (find-Has id (keep p accounts) a h).0

  -- Whatever the mode, the chosen account is one of the candidates.
  drain-Has :
      (family : ModelFamily) (first : ManagedAccount) (m : AccountPoolManager)
      → m.pool.accounts ≡ accounts
      → Has first (keep p accounts)
      → (a : ManagedAccount) × ((drain family first (keep p accounts) m).0 ≡ some a)
        × Has a (keep p accounts)
  unfolding drain move_on
  drain-Has family first m e h =
      elim (Option-cases (sticky (active_of m.pool family) (keep p accounts))) [
        | inl q ↦ (
          next_account (active_of m.pool family) accounts first (keep p accounts),
          rw (q, drain, e),
          next_account-Has (active_of m.pool family) first h,
        )
        | inr (a, q) ↦ (a, rw (q, drain), sticky-Has (active_of m.pool family) a q)
      ]

  pub choose_by-Has :
      (mode : Mode) (family : ModelFamily) (first : ManagedAccount) (others : List ManagedAccount)
      (m : AccountPoolManager)
      → m.pool.accounts ≡ accounts
      → keep p accounts ≡ first ∷ others
      → (a : ManagedAccount) × ((choose_by mode family first others m).0 ≡ some a)
        × Has a (keep p accounts)
  unfolding choose_by
  choose_by-Has sequential family first others m e k =
      rw (← k) (drain-Has family first m e (subst (Has first) (sym k) (inl refl)))
  choose_by-Has round_robin family first others m e k =
      elim (Bool-cases (ltb 1 (length (first ∷ others)))) [
        | inl l ↦
            (least_recent first others, rw l, subst (Has _) (sym k) (least_recent-Has others first))
        | inr l ↦
            rw l (rw (← k) (drain-Has family first m e (subst (Has first) (sym k) (inl refl))))
      ]
