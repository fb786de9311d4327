-- ===== src/Pool/Sticky.antt =====
-- The sticky part of the sequential drain in src/host/pool.ts.
use agy_proxy.Prelude.{
  ℕ, ◌≡◌, refl, sym, ◌∙◌, ap, inl, inr, Bool, true, false, List, [], ◌∷◌, Option, none, some,
  String, str_eq, arith, if◌then◌else◌, Bool-cases,
}
use agy_proxy.Pool.{ModelFamily, ManagedAccount, Runtime, AccountPoolData, sequential, put}
use agy_proxy.Pool.Manager.{AccountPoolManager, persist_soon, with_active}
use agy_proxy.Pool.Select.{
  keep, is_candidate, active_of, sticky, drain, choose_by, choose, choose_or, some_busy, select_any,
  select_account,
}
use agy_proxy.Pool.Wellformed.{
  same_family_refl, Has, DistinctIds, find_self, Has-keep, DistinctIds-keep,
}
use agy_proxy.Pool.Leaves.{select-Leaves}
use agy_proxy.Pool.Scheduling.{select_account-Has, select_any-Has}

-- A candidate that is active is chosen, and nothing changes.
choose_or_active :
    (family : ModelFamily) (a : ManagedAccount) (cs : List ManagedAccount) (m : AccountPoolManager)
    (otherwise : Option ManagedAccount × AccountPoolManager)
    → m.pool.mode ≡ sequential
    → active_of m.pool family ≡ some a.id
    → DistinctIds cs
    → Has a cs
    → choose_or family cs m otherwise ≡ (some a, m)
unfolding choose_or choose choose_by drain sticky
choose_or_active family a [] m otherwise mode act d h = elim h [ ]
choose_or_active family a (first ∷ others) m otherwise mode act d h =
    ap (λ k. choose_by k family first others m) mode ∙ stays
  where
    hit : sticky (active_of m.pool family) (first ∷ others) ≡ some a
    hit = rw act (find_self (first ∷ others) a d h)

    stays : drain family first (first ∷ others) m ≡ (some a, m)
    stays = rw (hit, drain)

active_of-put :
    (family : ModelFamily) (id : String) (pool : AccountPoolData)
    → str_eq id "" ≡ false
    → active_of
        (record pool { active_account_ids = put family (some id) pool.active_account_ids })
        family
      ≡ some id
unfolding active_of put
active_of-put family id pool h = ground (arith, same_family_refl family, h)

module _ (rt : Runtime) (now : ℕ) (family : ModelFamily) (m n : AccountPoolManager)
    (a : ManagedAccount) (distinct : DistinctIds m.pool.accounts)
    (same_accounts : n.pool.accounts ≡ m.pool.accounts) (mode : n.pool.mode ≡ sequential)
    (active : active_of n.pool family ≡ some a.id) where
  -- Where `a` is a candidate among the accounts of `m`, the choice in `n` is `a`.
  candidate_again :
      (busy : Option (List String)) (otherwise : Option ManagedAccount × AccountPoolManager)
      → is_candidate rt now family busy a ≡ true
      → Has a m.pool.accounts
      → choose_or family (keep (is_candidate rt now family busy) n.pool.accounts) n otherwise
        ≡ (some a, n)
  candidate_again busy otherwise k there =
      choose_or_active family a (keep (is_candidate rt now family busy) n.pool.accounts) n otherwise
        mode active
        (rw same_accounts
          (DistinctIds-keep (is_candidate rt now family busy) m.pool.accounts distinct))
        (rw same_accounts (Has-keep (is_candidate rt now family busy) m.pool.accounts a k there))

  any_again : (select_any rt now family m).0 ≡ some a → select_any rt now family n ≡ (some a, n)
  unfolding select_any
  any_again chosen = elim (select_any-Has rt now family m distinct) [
    | inl r ↦ absurd (ground (arith, r.1, chosen))
    | inr (c, q, k, there) ↦
        let same : c ≡ a = ground (arith, q, chosen) in
        candidate_again none (none, n) (rw (← same) k) (rw (← same) there)
  ]

  select_again :
      (busy : Option (List String))
      → (select_account rt now family busy m).0 ≡ some a
      → select_account rt now family busy n ≡ (some a, n)
  unfolding select_account choose_or
  select_again busy chosen = elim (select_account-Has rt now family busy m distinct) [
    | inl r ↦ elim (Bool-cases (some_busy busy)) [
      | inl y ↦
          ap (λ cs. choose_or family cs n (fall (some_busy busy)))
            (ap (keep (is_candidate rt now family busy)) same_accounts ∙ r.0)
          ∙ ap fall y
          ∙ any_again (sym (ap (λ s. s.0) (r.1 ∙ ap fall_m y)) ∙ chosen)
      | inr no_one ↦ absurd (nothing (sym (ap (λ s. s.0) (r.1 ∙ ap fall_m no_one)) ∙ chosen))
    ]
    | inr (c, q, k, there) ↦
        let same : c ≡ a = ground (arith, q, chosen) in
        candidate_again busy _ (rw (← same) k) (rw (← same) there)
  ]
    where
      fall : Bool → Option ManagedAccount × AccountPoolManager
      fall b = if b then select_any rt now family n else (none, n)

      fall_m : Bool → Option ManagedAccount × AccountPoolManager
      fall_m b = if b then select_any rt now family m else (none, m)

      nothing : ◌≡◌ {A = Option ManagedAccount} none (some a) → ⊥
      nothing e = cc

-- In sequential mode the drain sticks: a selection that is made again at once, for the same family
-- and with the same accounts busy, gives the same account and changes nothing more. (Ids are
-- distinct and the chosen one is not the empty text.)
pub select_sticks :
    (rt : Runtime) (now : ℕ) (family : ModelFamily) (busy : Option (List String))
    (m : AccountPoolManager) {a : ManagedAccount}
    → m.pool.mode ≡ sequential
    → DistinctIds m.pool.accounts
    → str_eq a.id "" ≡ false
    → (select_account rt now family busy m).0 ≡ some a
    → select_account rt now family busy (select_account rt now family busy m).1
      ≡ (some a, (select_account rt now family busy m).1)
unfolding persist_soon with_active put active_of
select_sticks rt now family busy m {a} mode distinct named chosen =
    elim (select-Leaves rt now family busy m) [
      | inl e ↦ rw e (λ i. (chosen i, e i))
      | inr (c, q, e) ↦
          let same : c ≡ a = ground (arith, q, chosen) in
          rw e (
            select_again rt now family m _ a distinct refl mode
              (rw same (active_of-put family a.id m.pool named)) busy chosen)
    ]
