-- ===== src/Pool/Leaves.antt =====
-- What `selectAccount` of src/host/pool.ts leaves behind.
use agy_proxy.Prelude.{
  ℕ, ◌≡◌, refl, ◌⊎◌, inl, inr, List, [], ◌∷◌, Option, none, some, String, length, ltb,
  if◌then◌else◌, Bool-cases, Option-cases,
}
use agy_proxy.Pool.{ModelFamily, ManagedAccount, Runtime, Mode, sequential, round_robin, put}
use agy_proxy.Pool.Manager.{AccountPoolManager, persist_soon, with_active}
use agy_proxy.Pool.Select.{
  select_account, select_any, choose_or, choose, choose_by, drain, move_on, sticky, active_of,
  some_busy,
}

-- What a selection leaves: the pool as it was, or the chosen account as the active one.
abbrev pub SelectLeaves :
    ModelFamily → AccountPoolManager → Option ManagedAccount × AccountPoolManager → Type 0
SelectLeaves family m r =
    (r.1 ≡ m)
    ⊎ ((a : ManagedAccount) × (r.0 ≡ some a)
        × (r.1 ≡ persist_soon (with_active (put family (some a.id) m.pool.active_account_ids) m)))

drain-Leaves :
    (family : ModelFamily) (first : ManagedAccount) (cs : List ManagedAccount)
    (m : AccountPoolManager)
    → SelectLeaves family m (drain family first cs m)
unfolding drain move_on
drain-Leaves family first cs m = elim (Option-cases (sticky (active_of m.pool family) cs)) [
  | inl e ↦ rw (e, drain) (inr (_, refl, refl))
  | inr (a, e) ↦ rw (e, drain) (inl refl)
]

choose_by-Leaves :
    (mode : Mode) (family : ModelFamily) (first : ManagedAccount) (others : List ManagedAccount)
    (m : AccountPoolManager)
    → SelectLeaves family m (choose_by mode family first others m)
unfolding choose_by
choose_by-Leaves sequential family first others m = drain-Leaves family first (first ∷ others) m
choose_by-Leaves round_robin family first others m =
    elim (Bool-cases (ltb 1 (length (first ∷ others)))) [
      | inl e ↦ rw e (inl refl)
      | inr e ↦ rw e (drain-Leaves family first (first ∷ others) m)
    ]

choose_or-Leaves :
    (family : ModelFamily) (cs : List ManagedAccount) (m : AccountPoolManager)
    (otherwise : Option ManagedAccount × AccountPoolManager)
    → SelectLeaves family m otherwise
    → SelectLeaves family m (choose_or family cs m otherwise)
unfolding choose_or choose
choose_or-Leaves family [] m otherwise h = h
choose_or-Leaves family (first ∷ others) m otherwise h =
    choose_by-Leaves m.pool.mode family first others m

pub select-Leaves :
    (rt : Runtime) (now : ℕ) (family : ModelFamily) (busy : Option (List String))
    (m : AccountPoolManager)
    → SelectLeaves family m (select_account rt now family busy m)
unfolding select_account select_any
select-Leaves rt now family busy m =
    choose_or-Leaves family _ m (if some_busy busy then select_any rt now family m else (none, m))
      (elim (Bool-cases (some_busy busy)) [
        | inl y ↦ rw y (choose_or-Leaves family _ m (none, m) (inl refl))
        | inr n ↦ rw n (inl refl)
      ])
