-- ===== src/Pool/Saving.antt =====
-- The debounced writes of src/host/pool.ts, and the file against the pool.
use agy_proxy.Prelude.{
  ℕ, ◌≡◌, refl, ◌⊎◌, inl, inr, Bool, true, false, List, Option, none, some, String, str_eq, arith,
  Bool-cases, Option-cases,
}
use agy_proxy.Pool.{ModelFamily, ManagedAccount, Runtime, find}
use agy_proxy.Pool.Manager.{
  AccountPoolManager, persist, persist_soon, timer_fires, flush, with_accounts, with_active,
  commit_staging_account, create_account_slot, delete_account, on_account, set_account_proxy,
  set_account_alias, save_cleared, set_account_enabled, mark_auth_required, clear_auth_required,
  reset_account_identity,
}
use agy_proxy.Pool.Updates.{
  reorder_accounts, set_mode, update_account_quotas, record_failure, record_success, clear_cooldown,
}
use agy_proxy.Pool.Select.{select_account}
use agy_proxy.Pool.Leaves.{select-Leaves}
use agy_proxy.Pool.Steps.{
  Step, commits, creates, deletes, sets_proxy, sets_alias, sets_enabled, marks_auth, clears_auth,
  resets, reorders, sets_mode, updates_quotas, fails, succeeds, uncools, selects, fires, flushes,
  Reach, here, next,
}

module _ (o : AccountPoolManager) where
  -- A write is due and its timer runs, or the file holds the pool, or neither the pool nor the file has
  -- changed since the manager was `o`.
  record IsSafe (m : AccountPoolManager) : Type 0 where
    disk : m.disk_ok ≡ true
    due :
        ((m.persist_dirty ≡ true) × (m.timer_armed ≡ true))
        ⊎ ((m.saved ≡ m.pool)
            ⊎ ((m.pool ≡ o.pool) × (m.saved ≡ o.saved) × (m.persist_dirty ≡ false)))

  persist-IsSafe : (m : AccountPoolManager) → m.disk_ok ≡ true → IsSafe (persist m)
  unfolding persist
  persist-IsSafe m h = record { disk = h; due = inr (inl (rw h)) }

  saved-IsSafe : (m : AccountPoolManager) → m.disk_ok ≡ true → m.saved ≡ m.pool → IsSafe m
  saved-IsSafe m h s = record { disk = h; due = inr (inl s) }

  soon-IsSafe : (m : AccountPoolManager) → m.disk_ok ≡ true → IsSafe (persist_soon m)
  unfolding persist_soon
  soon-IsSafe m h = record { disk = h; due = inl (refl, refl) }

  on_account-IsSafe :
      (id : String) (f : ManagedAccount → ManagedAccount)
      (save : AccountPoolManager → AccountPoolManager) (m : AccountPoolManager)
      → ((n : AccountPoolManager) → n.disk_ok ≡ true → IsSafe (save n))
      → IsSafe m
      → IsSafe (on_account id f save m)
  unfolding on_account with_accounts
  on_account-IsSafe id f save m saves v = elim (Option-cases (find id m.pool.accounts)) [
    | inl e ↦ rw (e, on_account) v
    | inr (a, e) ↦ rw (e, on_account) (saves _ v.disk)
  ]

  cleared-IsSafe :
      (keep : Bool) (id : String) (n : AccountPoolManager)
      → n.disk_ok ≡ true
      → IsSafe (save_cleared keep id n)
  unfolding save_cleared with_active persist
  cleared-IsSafe true id n h = persist-IsSafe n h
  cleared-IsSafe false id n h = saved-IsSafe _ h (ground (arith, h))

  selects-IsSafe :
      (rt : Runtime) (now : ℕ) (family : ModelFamily) (busy : Option (List String))
      (m : AccountPoolManager)
      → IsSafe m
      → IsSafe (select_account rt now family busy m).1
  unfolding with_active
  selects-IsSafe rt now family busy m v = elim (select-Leaves rt now family busy m) [
    | inl e ↦ rw e v
    | inr (a, q, e) ↦ rw e (soon-IsSafe _ v.disk)
  ]

  deletes-IsSafe :
      (id : String) (m : AccountPoolManager) → IsSafe m → IsSafe (delete_account id m).1
  unfolding delete_account persist
  deletes-IsSafe id m v = elim (Option-cases (find id m.pool.accounts)) [
    | inl e ↦ rw (e, delete_account) v
    | inr (a, e) ↦ rw (e, delete_account) (saved-IsSafe _ v.disk (ground (arith, v.disk)))
  ]

  fires-IsSafe : (m : AccountPoolManager) → IsSafe m → IsSafe (timer_fires m)
  unfolding timer_fires persist
  fires-IsSafe m v = elim (Bool-cases m.persist_dirty) [
    | inl e ↦ rw (e, timer_fires) (saved-IsSafe _ v.disk (ground (arith, v.disk)))
    | inr e ↦ record { disk = ground (arith, v.disk); due = inr (ground (arith, v.due)) }
  ]

  flushes-IsSafe : (m : AccountPoolManager) → IsSafe m → IsSafe (flush m)
  unfolding flush
  flushes-IsSafe m v = record { disk = ground (arith, v.disk); due = ground (arith, v.due, v.disk) }

  step-IsSafe : (rt : Runtime) {m n : AccountPoolManager} → Step rt m n → IsSafe m → IsSafe n
  unfolding commit_staging_account create_account_slot set_account_proxy set_account_alias
      set_account_enabled mark_auth_required clear_auth_required reset_account_identity
      reorder_accounts set_mode update_account_quotas record_failure record_success clear_cooldown
      with_accounts persist
  step-IsSafe rt {m} (commits now id alias email proxy fresh) v =
      saved-IsSafe _ v.disk (ground (arith, v.disk))
  step-IsSafe rt {m} (creates now id alias fresh) v = saved-IsSafe _ v.disk (ground (arith, v.disk))
  step-IsSafe rt {m} (deletes id) v = deletes-IsSafe id m v
  step-IsSafe rt {m} (sets_proxy id url) v = on_account-IsSafe id _ persist m persist-IsSafe v
  step-IsSafe rt {m} (sets_alias id alias) v = on_account-IsSafe id _ persist m persist-IsSafe v
  step-IsSafe rt {m} (sets_enabled id b) v =
      on_account-IsSafe id _ (save_cleared b id) m (cleared-IsSafe b id) v
  step-IsSafe rt {m} (marks_auth id reason) v =
      on_account-IsSafe id _ (save_cleared false id) m (cleared-IsSafe false id) v
  step-IsSafe rt {m} (clears_auth id) v = on_account-IsSafe id _ persist m persist-IsSafe v
  step-IsSafe rt {m} (resets id email) v = on_account-IsSafe id _ persist m persist-IsSafe v
  step-IsSafe rt {m} (reorders ids) v = saved-IsSafe _ v.disk (ground (arith, v.disk))
  step-IsSafe rt {m} (sets_mode mode) v = saved-IsSafe _ v.disk (ground (arith, v.disk))
  step-IsSafe rt {m} (updates_quotas id qs email) v =
      on_account-IsSafe id _ persist_soon m soon-IsSafe v
  step-IsSafe rt {m} (fails now id family reason reset) v =
      on_account-IsSafe id _ persist_soon m soon-IsSafe v
  step-IsSafe rt {m} (succeeds now id family) v =
      on_account-IsSafe id _ persist_soon m soon-IsSafe v
  step-IsSafe rt {m} (uncools none family) v = saved-IsSafe _ v.disk (ground (arith, v.disk))
  step-IsSafe rt {m} (uncools (some id) family) v = elim (Bool-cases (str_eq id "")) [
    | inl e ↦ rw e (saved-IsSafe _ v.disk (ground (arith, v.disk)))
    | inr e ↦ rw e (on_account-IsSafe id _ persist m persist-IsSafe v)
  ]
  step-IsSafe rt {m} (selects now family busy) v = selects-IsSafe rt now family busy m v
  step-IsSafe rt {m} fires v = fires-IsSafe m v
  step-IsSafe rt {m} flushes v = flushes-IsSafe m v

  Reach-IsSafe : (rt : Runtime) {m n : AccountPoolManager} → IsSafe m → Reach rt m n → IsSafe n
  Reach-IsSafe rt v here = v
  Reach-IsSafe rt v (next r st) = step-IsSafe rt st (Reach-IsSafe rt v r)

-- While writes succeed: from any state with nothing to write, such as a pool that was just loaded, and
-- after any operations in any order, the debounce timer runs with a write due, or the file holds
-- the pool, or neither has changed since then. A flush or the timer leaves the pool as it is, and
-- makes the file equal to it unless neither has changed.
pub writes_catch_up :
    (rt : Runtime) {m n : AccountPoolManager}
    → m.disk_ok ≡ true
    → m.persist_dirty ≡ false
    → Reach rt m n
    → (((n.persist_dirty ≡ true) × (n.timer_armed ≡ true))
        ⊎ ((n.saved ≡ n.pool) ⊎ ((n.pool ≡ m.pool) × (n.saved ≡ m.saved))))
      × (((flush n).saved ≡ n.pool) ⊎ ((n.pool ≡ m.pool) × (n.saved ≡ m.saved)))
      × ((flush n).pool ≡ n.pool)
      × (((timer_fires n).saved ≡ n.pool) ⊎ ((n.pool ≡ m.pool) × (n.saved ≡ m.saved)))
      × ((timer_fires n).pool ≡ n.pool)
unfolding flush timer_fires
writes_catch_up rt {m} {n} disk clean r =
    let s = Reach-IsSafe m rt (record { disk = disk; due = inr (inr (refl, refl, clean)) }) r in
    (
      ground (arith, s.due),
      ground (arith, s.due, s.disk),
      ground arith,
      ground (arith, s.due, s.disk),
      ground arith,
    )
