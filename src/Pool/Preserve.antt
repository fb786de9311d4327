-- ===== src/Pool/Preserve.antt =====
-- The invariant under the operations of src/host/pool.ts that change the list of accounts or the
-- active ids.
use agy_proxy.Prelude.{
  ℕ, ◌≡◌, refl, inl, inr, true, List, [], ◌∷◌, ◌++◌, Option, none, some, String, str_eq_iff, arith,
  Bool-cases, Option-cases,
}
use agy_proxy.Pool.{ModelFamily, ManagedAccount, Runtime, find, clear_active, put, same_family}
use agy_proxy.Pool.Manager.{
  AccountPoolManager, persist, persist_soon, with_accounts, with_active, delete_account,
}
use agy_proxy.Pool.Updates.{uncooled, uncool_all}
use agy_proxy.Pool.Select.{select_account, eligible}
use agy_proxy.Pool.Wellformed.{find_self}
use agy_proxy.Pool.Scheduling.{select_sound}
use agy_proxy.Pool.Lookup.{
  option_map, find-append, find-without, find-uncool_all, DistinctIds-without, DistinctIds-append,
  DistinctIds-uncool_all,
}
use agy_proxy.Pool.Active.{usable, WellFormed, accounts-WellFormed}
use agy_proxy.Pool.Leaves.{select-Leaves}

eligible-usable :
    (rt : Runtime) (now : ℕ) (family : ModelFamily) (a : ManagedAccount)
    → eligible rt now family a ≡ true
    → usable (some a) ≡ true
unfolding eligible
eligible-usable rt now family a h = ground arith

pub selects-WellFormed :
    (rt : Runtime) (now : ℕ) (family : ModelFamily) (busy : Option (List String))
    (m : AccountPoolManager)
    → WellFormed m
    → WellFormed (select_account rt now family busy m).1
unfolding persist_soon with_active put
selects-WellFormed rt now family busy m v = elim (select-Leaves rt now family busy m) [
  | inl e ↦ rw e v
  | inr (a, q, e) ↦
      let sound = select_sound rt now family busy m v.distinct q in
      let there = find_self m.pool.accounts a v.distinct sound.0 in
      let good = eligible-usable rt now family a sound.1 in
      rw e (record {
        distinct = v.distinct;
        active = λ g id h. elim (Bool-cases (same_family family g)) [
          | inl s ↦ let named : a.id ≡ id = ground (arith, h, s) in rw (← named) (rw there good)
          | inr s ↦ v.active g id (ground (arith, h, s))
        ];
      })
]

pub deletes-WellFormed :
    (id : String) (m : AccountPoolManager) → WellFormed m → WellFormed (delete_account id m).1
unfolding delete_account persist clear_active
deletes-WellFormed id m v = elim (Option-cases (find id m.pool.accounts)) [
  | inl e ↦ rw (e, delete_account) v
  | inr (a, e) ↦
      rw (e, delete_account)
        (record {
          distinct = DistinctIds-without id m.pool.accounts v.distinct;
          active = λ family j h.
              rw (find-without id j m.pool.accounts v.distinct)
                (ground (arith, v.active family j, h, str_eq_iff id j, str_eq_iff j id));
        })
]

pub adds-WellFormed :
    (a : ManagedAccount) (m : AccountPoolManager)
    → find a.id m.pool.accounts ≡ none
    → WellFormed m
    → WellFormed (persist (with_accounts (m.pool.accounts ++ a ∷ []) m))
unfolding persist with_accounts
adds-WellFormed a m fresh v =
    accounts-WellFormed m _ v (DistinctIds-append m.pool.accounts a fresh v.distinct) refl
      (λ id h. rw (find-append id m.pool.accounts a) (ground (arith, h)))

pub uncool-WellFormed :
    (family : Option ModelFamily) (m : AccountPoolManager)
    → WellFormed m
    → WellFormed (persist (with_accounts (uncool_all family m.pool.accounts) m))
unfolding persist with_accounts uncooled
uncool-WellFormed family m v =
    accounts-WellFormed m _ v (DistinctIds-uncool_all family m.pool.accounts v.distinct) refl
      (λ id h.
        rw (find-uncool_all family id m.pool.accounts) (keeps family (find id m.pool.accounts) h))
  where
    keeps :
        (family : Option ModelFamily) (o : Option ManagedAccount)
        → usable o ≡ true
        → usable (option_map (uncooled family) o) ≡ true
    keeps family none h = h
    keeps none (some a) h = h
    keeps (some g) (some a) h = h
