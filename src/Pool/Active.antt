-- ===== src/Pool/Active.antt =====
-- Which account is active for a family in src/host/pool.ts: the invariant, and assignments to one
-- account that keep it.
use agy_proxy.Prelude.{
  ◌≡◌, inl, inr, Bool, true, false, ◌&&◌, not, List, Option, none, some, String, str_eq_iff, arith,
  Option-cases,
}
use agy_proxy.Pool.{ModelFamily, ManagedAccount, find, modify, clear_active}
use agy_proxy.Pool.Manager.{
  AccountPoolManager, persist, with_accounts, with_active, on_account, save_cleared,
}
use agy_proxy.Pool.Wellformed.{DistinctIds}
use agy_proxy.Pool.Lookup.{find-modify, DistinctIds-modify}

abbrev pub usable : Option ManagedAccount → Bool
usable none = false
usable (some a) = a.enabled && not a.auth_required

-- Each id that is active for a family names an account that is enabled and signed in.
pub record WellFormed (m : AccountPoolManager) : Type 0 where
  pub distinct : DistinctIds m.pool.accounts
  pub active :
      (family : ModelFamily) (id : String)
      → m.pool.active_account_ids family ≡ some id
      → usable (find id m.pool.accounts) ≡ true

-- The invariant on the two fields that it reads.
module _ (m n : AccountPoolManager) (v : WellFormed m) where
  pub same-WellFormed :
      n.pool.accounts ≡ m.pool.accounts
      → n.pool.active_account_ids ≡ m.pool.active_account_ids
      → WellFormed n
  same-WellFormed ea ei = record {
    distinct = rw ea v.distinct;
    active = λ family id h. rw ea (v.active family id (rw ei at h));
  }

  -- Where each account stays as usable as it was, the active ids may stay.
  pub accounts-WellFormed :
      DistinctIds n.pool.accounts
      → n.pool.active_account_ids ≡ m.pool.active_account_ids
      → ((id : String)
          → usable (find id m.pool.accounts) ≡ true
          → usable (find id n.pool.accounts) ≡ true)
      → WellFormed n
  accounts-WellFormed d ei keeps = record {
    distinct = d;
    active = λ family id h. keeps id (v.active family id (rw ei at h));
  }

-- An assignment to one account that keeps its id and leaves it usable if it was.
abbrev pub Harmless : (ManagedAccount → ManagedAccount) → Type 0
Harmless f =
    (a : ManagedAccount) → ((f a).id ≡ a.id) × (usable (some a) ≡ true → usable (some (f a)) ≡ true)

modify-usable :
    (id j : String) (f : ManagedAccount → ManagedAccount) (xs : List ManagedAccount)
    → Harmless f
    → usable (find j xs) ≡ true
    → usable (find j (modify id f xs)) ≡ true
modify-usable id j f xs harmless h = elim (Option-cases (find j xs)) [
  | inl e ↦ absurd (ground (arith, e))
  | inr (a, e) ↦
      rw (find-modify id j f (λ a. (harmless a).0) xs) (ground (arith, e, (harmless a).1))
]

pub on_account-WellFormed :
    (id : String) (f : ManagedAccount → ManagedAccount)
    (save : AccountPoolManager → AccountPoolManager) (m : AccountPoolManager)
    → ((n : AccountPoolManager) → (save n).pool ≡ n.pool)
    → Harmless f
    → WellFormed m
    → WellFormed (on_account id f save m)
unfolding on_account with_accounts
on_account-WellFormed id f save m saves harmless v = elim (Option-cases (find id m.pool.accounts)) [
  | inl e ↦ rw (e, on_account) v
  | inr (a, e) ↦
      rw (e, on_account)
        (record {
          distinct =
              rw saves (DistinctIds-modify id f (λ a. (harmless a).0) m.pool.accounts v.distinct);
          active = λ family j h.
              rw saves
                (modify-usable id j f m.pool.accounts harmless (v.active family j (rw saves at h)));
        })
]

-- An assignment to the account `id` whose id is then taken from the active ones.
pub cleared-WellFormed :
    (id : String) (f : ManagedAccount → ManagedAccount) (m : AccountPoolManager)
    → ((a : ManagedAccount) → (f a).id ≡ a.id)
    → WellFormed m
    → WellFormed (on_account id f (save_cleared false id) m)
unfolding on_account with_accounts with_active save_cleared persist clear_active
cleared-WellFormed id f m keeps v = elim (Option-cases (find id m.pool.accounts)) [
  | inl e ↦ rw (e, on_account) v
  | inr (a, e) ↦
      rw (e, on_account)
        (record {
          distinct = DistinctIds-modify id f keeps m.pool.accounts v.distinct;
          active = λ family j h.
              rw (find-modify id j f keeps m.pool.accounts)
                (ground (arith, v.active family j, h, str_eq_iff id j, str_eq_iff j id));
        })
]
