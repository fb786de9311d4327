-- ===== src/Pool/Cooling.antt =====
-- Cooldowns of src/host/pool.ts: what a failure and a success do to the accounts that can be chosen.
use agy_proxy.Prelude.{
  ℕ, ◌+◌, ◌<◌, ◌≡◌, refl, sym, ◌∙◌, ap, inl, inr, true, false, false≢true, ◌&&◌, not, List, Option,
  none, some, String, str_eq, str_eq_iff, length, arith, if◌then◌else◌, Bool-cases, Option-cases,
}
use text.Mathlib.TextPositions.{eq_refl}
use agy_proxy.Pool.{
  ModelFamily, ManagedAccount, Runtime, AccountPoolData, find, put, same_family, cooling,
}
use agy_proxy.Pool.Manager.{AccountPoolManager, persist_soon, with_accounts, on_account}
use agy_proxy.Pool.Updates.{
  failures_before, backoff, until_date, until_named, cooldown_until, failed, record_failure,
  succeeded, record_success, reorder_accounts,
}
use agy_proxy.Pool.Select.{eligible, drained, select_account}
use agy_proxy.Pool.Wellformed.{same_family_refl, DistinctIds, Has, find_self}
use agy_proxy.Pool.Lookup.{
  option_map, find-modify, find-reordered, DistinctIds-reordered, DistinctIds-modify,
  length-reordered,
}
use agy_proxy.Pool.Scheduling.{select_sound}

on_account-find :
    (id j : String) (f : ManagedAccount → ManagedAccount) (m : AccountPoolManager)
    (a : ManagedAccount)
    → ((b : ManagedAccount) → (f b).id ≡ b.id)
    → find id m.pool.accounts ≡ some a
    → find j (on_account id f persist_soon m).pool.accounts
      ≡ (if str_eq id j then option_map f (find j m.pool.accounts) else find j m.pool.accounts)
unfolding on_account with_accounts persist_soon
on_account-find id j f m a keeps e = rw (e, on_account) (find-modify id j f keeps m.pool.accounts)

on_account-distinct :
    (id : String) (f : ManagedAccount → ManagedAccount) (m : AccountPoolManager)
    (a : ManagedAccount)
    → ((b : ManagedAccount) → (f b).id ≡ b.id)
    → find id m.pool.accounts ≡ some a
    → DistinctIds m.pool.accounts
    → DistinctIds (on_account id f persist_soon m).pool.accounts
unfolding on_account with_accounts persist_soon
on_account-distinct id f m a keeps e d =
    rw (e, on_account) (DistinctIds-modify id f keeps m.pool.accounts d)

-- Without a hint from the server the backoff is used.
until_named_future :
    (rt : Runtime) (now : ℕ) (pool : AccountPoolData) (failures : ℕ) (reset : Option String)
    → now < backoff now pool failures
    → now < until_named rt now pool failures reset
unfolding until_named until_date
until_named_future rt now pool failures none h = h
until_named_future rt now pool failures (some text) h = elim (Bool-cases (str_eq text "")) [
  | inl e ↦ rw e h
  | inr e ↦ elim (Option-cases (rt.parse_date text)) [
    | inl q ↦ rw (e, q) h
    | inr (t, q) ↦ rw (e, q) (ground arith)
  ]
]

cooldown_future :
    (rt : Runtime) (now : ℕ) (pool : AccountPoolData) (failures : ℕ) (reason : String)
    (reset : Option String)
    → 0 < pool.default_cooldown_ms
    → 0 < pool.max_cooldown_ms
    → 0 < failures
    → now < cooldown_until rt now pool failures reason reset
unfolding cooldown_until backoff
cooldown_future rt now pool failures reason reset d m f =
    let grows : now < backoff now pool failures = grind arith in
    ground (arith, until_named_future rt now pool failures reset grows)

failed_id :
    (rt : Runtime) (now : ℕ) (pool : AccountPoolData) (family : ModelFamily) (reason : String)
    (reset : Option String) (a : ManagedAccount)
    → (failed rt now pool family reason reset a).id ≡ a.id
unfolding failed
failed_id rt now pool family reason reset a = refl

module _ (rt : Runtime) (now : ℕ) (id : String) (family : ModelFamily) (reason : String)
    (reset : Option String) (m : AccountPoolManager) (a : ManagedAccount)
    (found : find id m.pool.accounts ≡ some a) where
  -- When the account is available again.
  abbrev pub back_at : ℕ
  back_at = cooldown_until rt now m.pool (failures_before (a.cooldowns family) + 1) reason reset

  failed_ineligible :
      (t : ℕ)
      → t < back_at
      → eligible rt t family (failed rt now m.pool family reason reset a) ≡ false
  unfolding eligible failed put cooling
  failed_ineligible t h = rw (same_family_refl family) (ground arith)

  -- From a failure until its cooldown ends, and that is later than now, no selection for the same
  -- family gives that account; for another family it is as eligible as before, and every other
  -- account is as it was.
  pub failure_isolates :
      0 < m.pool.default_cooldown_ms
      → 0 < m.pool.max_cooldown_ms
      → DistinctIds m.pool.accounts
      → (now < back_at)
        × ((t : ℕ) (busy : Option (List String)) (b : ManagedAccount)
            → t < back_at
            → (select_account rt t family busy (record_failure rt now id family reason reset m)).0
              ≡ some b
            → str_eq b.id id ≡ false)
        × ((t : ℕ) (g : ModelFamily)
            → same_family family g ≡ false
            → eligible rt t g (failed rt now m.pool family reason reset a) ≡ eligible rt t g a)
        × ((j : String)
            → str_eq id j ≡ false
            → find j (record_failure rt now id family reason reset m).pool.accounts
              ≡ find j m.pool.accounts)
  unfolding record_failure eligible put
  failure_isolates hd hm d = (
    cooldown_future rt now m.pool _ reason reset hd hm (omega arith),
    (λ t busy b h q. elim (Bool-cases (str_eq b.id id)) [
      | inl same ↦ absurd (false≢true (sym (chosen t busy b h q same) ∙ (sound t busy b q).1))
      | inr other ↦ other
    ]),
    (λ t g h. rw h),
    (λ j h. on_account-find id j fail m a keeps found ∙ rw h),
  )
    where
      fail : ManagedAccount → ManagedAccount
      fail = failed rt now m.pool family reason reset

      keeps : (b : ManagedAccount) → (fail b).id ≡ b.id
      keeps b = failed_id rt now m.pool family reason reset b

      after : AccountPoolManager
      after = on_account id fail persist_soon m

      distinct : DistinctIds after.pool.accounts
      distinct = on_account-distinct id fail m a keeps found d

      sound :
          (t : ℕ) (busy : Option (List String)) (b : ManagedAccount)
          → (select_account rt t family busy after).0 ≡ some b
          → Has b after.pool.accounts × (eligible rt t family b ≡ true)
      sound t busy b q = let s = select_sound rt t family busy after distinct q in (s.0, s.1)

      chosen :
          (t : ℕ) (busy : Option (List String)) (b : ManagedAccount)
          → t < back_at
          → (select_account rt t family busy after).0 ≡ some b
          → str_eq b.id id ≡ true
          → eligible rt t family b ≡ false
      chosen t busy b h q same =
          let named : b.id ≡ id = (str_eq_iff b.id id).0 same in
          let here = find_self after.pool.accounts b distinct (sound t busy b q).0 in
          let there = on_account-find id id fail m a keeps found in
          let equal : b ≡ fail a =
            ground
              (arith, here, there, found, eq_refl id, ap (λ i. find i after.pool.accounts) named) in
          rw equal (failed_ineligible t h)

-- After a success the account is free of its cooldown for the family and of its authentication
-- quarantine: it can be chosen just if it is enabled and its quota is not drained.
pub success_restores :
    (rt : Runtime) (now : ℕ) (id : String) (family : ModelFamily) (m : AccountPoolManager)
    {a : ManagedAccount}
    → find id m.pool.accounts ≡ some a
    → (b : ManagedAccount) × (find id (record_success now id family m).pool.accounts ≡ some b)
      × ((t : ℕ) → eligible rt t family b ≡ (a.enabled && not (drained rt t (a.quotas family))))
unfolding record_success succeeded eligible put cooling
success_restores rt now id family m {a} e = (
  succeeded now family a,
  on_account-find id id (succeeded now family) m a (λ b. refl) e ∙ rw (eq_refl id, e),
  λ t. rw (same_family_refl family) (ground arith),
)

-- A reordering loses, adds and changes no account: under every id stands the account that stood
-- there, and their number and the distinctness of the ids stay, whatever ids are asked for.
pub reorder_keeps_accounts :
    (ids : List String) (m : AccountPoolManager)
    → DistinctIds m.pool.accounts
    → ((j : String) → find j (reorder_accounts ids m).pool.accounts ≡ find j m.pool.accounts)
      × DistinctIds (reorder_accounts ids m).pool.accounts
      × (length (reorder_accounts ids m).pool.accounts ≡ length m.pool.accounts)
unfolding reorder_accounts
reorder_keeps_accounts ids m d = (
  (λ j. find-reordered ids j m.pool.accounts d),
  DistinctIds-reordered ids m.pool.accounts d,
  length-reordered ids m.pool.accounts,
)
