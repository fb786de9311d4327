-- ===== src/Pool/Steps.antt =====
-- Sequences of the operations of src/host/pool.ts, and the invariant along them.
use agy_proxy.Prelude.{
  ℕ, ◌≡◌, refl, inl, inr, Bool, true, false, List, Option, none, some, String, str_eq, arith,
  Bool-cases,
}
use agy_proxy.Pool.{ModelFamily, FamilyQuotaInfo, Runtime, Mode, find}
use agy_proxy.Pool.Manager.{
  AccountPoolManager, persist, persist_soon, timer_fires, flush, with_accounts, new_account,
  commit_staging_account, create_account_slot, delete_account, set_account_proxy, set_account_alias,
  save_cleared, set_account_enabled, mark_auth_required, clear_auth_required,
  reset_account_identity,
}
use agy_proxy.Pool.Updates.{
  reorder_accounts, set_mode, update_account_quotas, failed, record_failure, succeeded,
  record_success, uncooled, clear_cooldown,
}
use agy_proxy.Pool.Select.{select_account}
use agy_proxy.Pool.Lookup.{find-reordered, DistinctIds-reordered}
use agy_proxy.Pool.Active.{
  WellFormed, Harmless, same-WellFormed, accounts-WellFormed, on_account-WellFormed,
  cleared-WellFormed,
}
use agy_proxy.Pool.Preserve.{
  selects-WellFormed, deletes-WellFormed, adds-WellFormed, uncool-WellFormed,
}

-- One operation, with any arguments. A new account has a fresh id.
pub data Step (rt : Runtime) (m : AccountPoolManager) : AccountPoolManager → Type 0 where
  commits :
      (now : ℕ) (id alias : String) (email proxy : Option String)
      → find id m.pool.accounts ≡ none
      → Step rt m (commit_staging_account now id alias email proxy m)
  creates :
      (now : ℕ) (id alias : String)
      → find id m.pool.accounts ≡ none
      → Step rt m (create_account_slot now id alias m)
  deletes : (id : String) → Step rt m (delete_account id m).1
  sets_proxy : (id : String) (url : Option String) → Step rt m (set_account_proxy rt id url m)
  sets_alias : (id alias : String) → Step rt m (set_account_alias rt id alias m)
  sets_enabled : (id : String) (b : Bool) → Step rt m (set_account_enabled id b m)
  marks_auth : (id : String) (reason : Option String) → Step rt m (mark_auth_required id reason m)
  clears_auth : (id : String) → Step rt m (clear_auth_required id m)
  resets : (id email : String) → Step rt m (reset_account_identity id email m)
  reorders : (ids : List String) → Step rt m (reorder_accounts ids m)
  sets_mode : (mode : Mode) → Step rt m (set_mode mode m)
  updates_quotas :
      (id : String) (qs : ModelFamily → Option FamilyQuotaInfo) (email : Option String)
      → Step rt m (update_account_quotas id qs email m)
  fails :
      (now : ℕ) (id : String) (family : ModelFamily) (reason : String) (reset : Option String)
      → Step rt m (record_failure rt now id family reason reset m)
  succeeds :
      (now : ℕ) (id : String) (family : ModelFamily) → Step rt m (record_success now id family m)
  uncools :
      (id : Option String) (family : Option ModelFamily) → Step rt m (clear_cooldown id family m)
  selects :
      (now : ℕ) (family : ModelFamily) (busy : Option (List String))
      → Step rt m (select_account rt now family busy m).1
  fires : Step rt m (timer_fires m)
  flushes : Step rt m (flush m)

pub data Reach (rt : Runtime) (m : AccountPoolManager) : AccountPoolManager → Type 0 where
  here : Reach rt m m
  next : {n o : AccountPoolManager} → Reach rt m n → Step rt n o → Reach rt m o

step-WellFormed :
    (rt : Runtime) {m n : AccountPoolManager} → Step rt m n → WellFormed m → WellFormed n
unfolding commit_staging_account create_account_slot set_account_proxy set_account_alias
    set_account_enabled mark_auth_required clear_auth_required reset_account_identity
    reorder_accounts set_mode update_account_quotas record_failure failed record_success succeeded
    clear_cooldown uncooled timer_fires flush save_cleared new_account with_accounts persist
    persist_soon
step-WellFormed rt {m} (commits now id alias email proxy fresh) v = adds-WellFormed _ m fresh v
step-WellFormed rt {m} (creates now id alias fresh) v = adds-WellFormed _ m fresh v
step-WellFormed rt {m} (deletes id) v = deletes-WellFormed id m v
step-WellFormed rt {m} (sets_proxy id url) v =
    on_account-WellFormed id _ persist m (λ n. refl) (λ a. (refl, λ h. h)) v
step-WellFormed rt {m} (sets_alias id alias) v =
    on_account-WellFormed id _ persist m (λ n. refl) (λ a. (refl, λ h. h)) v
step-WellFormed rt {m} (sets_enabled id true) v =
    on_account-WellFormed id _ (save_cleared true id) m (λ n. refl) (λ a. (refl, λ h. ground arith))
      v
step-WellFormed rt {m} (sets_enabled id false) v = cleared-WellFormed id _ m (λ a. refl) v
step-WellFormed rt {m} (marks_auth id reason) v = cleared-WellFormed id _ m (λ a. refl) v
step-WellFormed rt {m} (clears_auth id) v =
    on_account-WellFormed id _ persist m (λ n. refl) (λ a. (refl, λ h. ground arith)) v
step-WellFormed rt {m} (resets id email) v =
    on_account-WellFormed id _ persist m (λ n. refl) (λ a. (refl, λ h. ground arith)) v
step-WellFormed rt {m} (reorders ids) v =
    accounts-WellFormed m _ v (DistinctIds-reordered ids m.pool.accounts v.distinct) refl
      (λ id h. rw (find-reordered ids id m.pool.accounts v.distinct) h)
step-WellFormed rt {m} (sets_mode mode) v = same-WellFormed m _ v refl refl
step-WellFormed rt {m} (updates_quotas id qs email) v =
    on_account-WellFormed id _ persist_soon m (λ n. refl) (λ a. (refl, λ h. h)) v
step-WellFormed rt {m} (fails now id family reason reset) v =
    on_account-WellFormed id _ persist_soon m (λ n. refl) (λ a. (refl, λ h. h)) v
step-WellFormed rt {m} (succeeds now id family) v =
    on_account-WellFormed id _ persist_soon m (λ n. refl) (λ a. (refl, λ h. ground arith)) v
step-WellFormed rt {m} (uncools none family) v = uncool-WellFormed family m v
step-WellFormed rt {m} (uncools (some id) family) v = elim (Bool-cases (str_eq id "")) [
  | inl e ↦ rw e (uncool-WellFormed family m v)
  | inr e ↦ rw e (on_account-WellFormed id _ persist m (λ n. refl) (harmless family) v)
]
  where
    harmless : (family : Option ModelFamily) → Harmless (uncooled family)
    harmless none a = (refl, λ h. h)
    harmless (some g) a = (refl, λ h. h)
step-WellFormed rt {m} (selects now family busy) v = selects-WellFormed rt now family busy m v
step-WellFormed rt {m} fires v = same-WellFormed m _ v (ground arith) (ground arith)
step-WellFormed rt {m} flushes v = same-WellFormed m _ v (ground arith) (ground arith)

-- From a pool whose ids are distinct, and in which the account that is active for a family is there,
-- enabled and signed in: whatever the operations and their order, the same holds of the pool after.
pub Reach-WellFormed :
    (rt : Runtime) {m n : AccountPoolManager} → WellFormed m → Reach rt m n → WellFormed n
Reach-WellFormed rt v here = v
Reach-WellFormed rt v (next r st) = step-WellFormed rt st (Reach-WellFormed rt v r)
