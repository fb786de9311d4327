-- ===== src/Pool/Scheduling.antt =====
-- The answers of `selectAccount` of src/host/pool.ts.
use agy_proxy.Prelude.{
  ℕ, ◌≡◌, refl, subst, ◌⊎◌, inl, inr, true, false, List, [], ◌∷◌, Option, none, some, String, arith,
  if◌then◌else◌, Bool-cases,
}
use agy_proxy.Pool.{ModelFamily, ManagedAccount, Runtime}
use agy_proxy.Pool.Manager.{AccountPoolManager}
use agy_proxy.Pool.Select.{
  keep, is_candidate, eligible, is_busy, choose, choose_or, some_busy, select_any, select_account,
}
use agy_proxy.Pool.Choice.{choose_by-Has}
use agy_proxy.Pool.Wellformed.{Has, DistinctIds, keep-Has, Has-keep}

nobody_busy :
    (busy : Option (List String)) (id : String) → some_busy busy ≡ false → is_busy busy id ≡ false
unfolding some_busy is_busy
nobody_busy none id h = refl
nobody_busy (some []) id h = refl
nobody_busy (some (x ∷ xs)) id h = cc

module _ (rt : Runtime) (now : ℕ) (family : ModelFamily) where
  -- A choice that is made among candidates.
  choose_or-Has :
      (busy : Option (List String)) (m : AccountPoolManager)
      (otherwise : Option ManagedAccount × AccountPoolManager)
      → DistinctIds m.pool.accounts
      → (cs : List ManagedAccount) → keep (is_candidate rt now family busy) m.pool.accounts ≡ cs
      → ((cs ≡ []) × (choose_or family cs m otherwise ≡ otherwise))
        ⊎ ((a : ManagedAccount) × ((choose_or family cs m otherwise).0 ≡ some a)
            × (is_candidate rt now family busy a ≡ true)
            × Has a m.pool.accounts)
  unfolding choose_or choose
  choose_or-Has busy m otherwise d [] e = inl (refl, refl)
  choose_or-Has busy m otherwise d (first ∷ others) e =
      let p = is_candidate rt now family busy in
      let (a, q, there) =
        choose_by-Has p m.pool.accounts d m.pool.mode family first others m refl e in
      let kept = keep-Has p m.pool.accounts a there in inr (a, q, kept.0, kept.1)

  candidate_eligible :
      (busy : Option (List String)) (a : ManagedAccount)
      → is_candidate rt now family busy a ≡ true
      → (is_busy busy a.id ≡ false) × (eligible rt now family a ≡ true)
  unfolding is_candidate
  candidate_eligible busy a h = ground arith

  pub select_any-Has :
      (m : AccountPoolManager)
      → DistinctIds m.pool.accounts
      → ((keep (is_candidate rt now family none) m.pool.accounts ≡ [])
          × (select_any rt now family m ≡ (none, m)))
        ⊎ ((a : ManagedAccount) × ((select_any rt now family m).0 ≡ some a)
            × (is_candidate rt now family none a ≡ true)
            × Has a m.pool.accounts)
  unfolding select_any
  select_any-Has m d =
      choose_or-Has none m (none, m) d (keep (is_candidate rt now family none) m.pool.accounts) refl

  pub select_account-Has :
      (busy : Option (List String)) (m : AccountPoolManager)
      → DistinctIds m.pool.accounts
      → ((keep (is_candidate rt now family busy) m.pool.accounts ≡ [])
          × (select_account rt now family busy m
              ≡ (if some_busy busy then select_any rt now family m else (none, m))))
        ⊎ ((a : ManagedAccount) × ((select_account rt now family busy m).0 ≡ some a)
            × (is_candidate rt now family busy a ≡ true)
            × Has a m.pool.accounts)
  unfolding select_account
  select_account-Has busy m d =
      choose_or-Has busy m (if some_busy busy then select_any rt now family m else (none, m)) d
        (keep (is_candidate rt now family busy) m.pool.accounts) refl

  no_candidate :
      (busy : Option (List String)) (m : AccountPoolManager) (b : ManagedAccount)
      → keep (is_candidate rt now family busy) m.pool.accounts ≡ []
      → Has b m.pool.accounts
      → is_candidate rt now family busy b ≡ false
  no_candidate busy m b e h = elim (Bool-cases (is_candidate rt now family busy b)) [
    | inl y ↦
        let there : Has b [] =
          subst (Has b) e (Has-keep (is_candidate rt now family busy) m.pool.accounts b y h) in
        absurd there
    | inr n ↦ n
  ]

  -- Without the busy filter, an eligible account is found if there is one.
  any_total :
      (m : AccountPoolManager) (b : ManagedAccount)
      → DistinctIds m.pool.accounts
      → Has b m.pool.accounts
      → eligible rt now family b ≡ true
      → (a : ManagedAccount) × ((select_any rt now family m).0 ≡ some a)
        × (eligible rt now family a ≡ true)
        × Has a m.pool.accounts
  unfolding is_candidate is_busy
  any_total m b d h e = elim (select_any-Has m d) [
    | inl r ↦ absurd_by (no_candidate none m b r.0 h)
    | inr (a, q, c, there) ↦ (a, q, (candidate_eligible none a c).1, there)
  ]
    where
      absurd_by :
          is_candidate rt now family none b ≡ false
          → (a : ManagedAccount) × ((select_any rt now family m).0 ≡ some a)
            × (eligible rt now family a ≡ true)
            × Has a m.pool.accounts
      absurd_by n = absurd (ground (arith, n, e))

  -- An account is chosen whenever one is eligible, busy or not, and the chosen one is an eligible
  -- account of the pool.
  pub select_total :
      (busy : Option (List String)) (m : AccountPoolManager) (b : ManagedAccount)
      → DistinctIds m.pool.accounts
      → Has b m.pool.accounts
      → eligible rt now family b ≡ true
      → (a : ManagedAccount) × ((select_account rt now family busy m).0 ≡ some a)
        × (eligible rt now family a ≡ true)
        × Has a m.pool.accounts
  unfolding is_candidate is_busy some_busy
  select_total busy m b d h e = elim (select_account-Has busy m d) [
    | inl r ↦ elim (Bool-cases (some_busy busy)) [
      | inl y ↦ rw (r.1, y) (any_total m b d h e)
      | inr n ↦ absurd_by (nobody_busy busy b.id n) (no_candidate busy m b r.0 h)
    ]
    | inr (a, q, c, there) ↦ (a, q, (candidate_eligible busy a c).1, there)
  ]
    where
      absurd_by :
          is_busy busy b.id ≡ false
          → is_candidate rt now family busy b ≡ false
          → (a : ManagedAccount) × ((select_account rt now family busy m).0 ≡ some a)
            × (eligible rt now family a ≡ true)
            × Has a m.pool.accounts
      absurd_by q n = absurd (ground (arith, q, n, e))

  any_sound :
      (m : AccountPoolManager) {a : ManagedAccount}
      → DistinctIds m.pool.accounts
      → (select_any rt now family m).0 ≡ some a
      → Has a m.pool.accounts × (eligible rt now family a ≡ true)
  any_sound m {a} d s = elim (select_any-Has m d) [
    | inl r ↦ absurd (ground (arith, r.1, s))
    | inr (c, q, k, there) ↦
        let same : c ≡ a = ground (arith, q, s) in
        rw (← same) (there, (candidate_eligible none c k).1)
  ]

  fallback_sound :
      (busy : Option (List String)) (m : AccountPoolManager) {a : ManagedAccount}
      → DistinctIds m.pool.accounts
      → (if some_busy busy then select_any rt now family m else (none, m)).0 ≡ some a
      → Has a m.pool.accounts × (eligible rt now family a ≡ true)
  unfolding some_busy
  fallback_sound none m d s = cc
  fallback_sound (some []) m d s = cc
  fallback_sound (some (x ∷ xs)) m d s = any_sound m d s

  -- What is chosen is always an eligible account of the pool; if an eligible account is not busy,
  -- then the chosen one is not busy either.
  pub select_sound :
      (busy : Option (List String)) (m : AccountPoolManager) {a : ManagedAccount}
      → DistinctIds m.pool.accounts
      → (select_account rt now family busy m).0 ≡ some a
      → Has a m.pool.accounts
        × (eligible rt now family a ≡ true)
        × ((b : ManagedAccount)
            → Has b m.pool.accounts
            → eligible rt now family b ≡ true
            → is_busy busy b.id ≡ false
            → is_busy busy a.id ≡ false)
  unfolding is_candidate
  select_sound busy m {a} d s = elim (select_account-Has busy m d) [
    | inl r ↦
        let parts = fallback_sound busy m d (rw r.1 at s) in
        (
          parts.0,
          parts.1,
          λ b hb eb nb. absurd (ground (arith, no_candidate busy m b r.0 hb, eb, nb)),
        )
    | inr (c, q, k, there) ↦
        let same : c ≡ a = ground (arith, q, s) in
        let parts = candidate_eligible busy c k in
        rw (← same) (there, parts.1, λ b hb eb nb. parts.0)
  ]
