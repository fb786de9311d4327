-- ===== src/Pool/Select.antt =====
-- `selectAccount` of src/host/pool.ts: the sticky sequential drain and the round robin.
use agy_proxy.Prelude.{
  ℕ, zero, suc, ◌+◌, ◌-◌, ◌%◌, Bool, true, false, ◌&&◌, ◌||◌, not, List, [], ◌∷◌, Option, none,
  some, String, length, str_eq, ltb, leb, if◌then◌else◌,
}
use agy_proxy.Pool.{
  ModelFamily, FamilyQuotaInfo, ManagedAccount, Mode, sequential, round_robin, AccountPoolData,
  Runtime, find, put, cooling,
}
use agy_proxy.Pool.Manager.{AccountPoolManager, persist_soon, with_active}

-- The set of ids of `busyAccountIds`.
unfoldable pub has : String → List String → Bool
has id [] = false
has id (j ∷ js) = str_eq j id || has id js

unfoldable pub is_busy : Option (List String) → String → Bool
unfolding has
is_busy none id = false
is_busy (some ids) id = has id ids

-- `if (resetTime) { const resetMs = Date.parse(resetTime); if (resetMs > now) … }`
unfoldable pub pending : Runtime → ℕ → Option String → Bool
pending rt now none = false
pending rt now (some text) =
    if str_eq text ""
    then false
    else elim (rt.parse_date text) [ none ↦ false | some t ↦ ltb now t ]

-- A fraction that was reported and is at most `limit` millionths.
unfoldable pub is_low : ℕ → Option ℕ → Bool
is_low limit none = false
is_low limit (some f) = leb f limit

-- 2 % of the five-hour window or 1 % of the weekly one is left, and its reset lies ahead.
unfoldable pub drained : Runtime → ℕ → Option FamilyQuotaInfo → Bool
unfolding pending is_low
drained rt now none = false
drained rt now (some q) =
    (is_low 20_000 q.remaining_fraction && pending rt now q.reset_time)
    || (is_low 10_000 q.weekly_fraction && pending rt now q.weekly_reset_time)

-- What an account needs to serve a family, whether or not it is busy.
unfoldable pub eligible : Runtime → ℕ → ModelFamily → ManagedAccount → Bool
unfolding cooling drained
eligible rt now family a =
    a.enabled
    && not a.auth_required
    && not (cooling now (a.cooldowns family))
    && not (drained rt now (a.quotas family))

unfoldable pub is_candidate :
    Runtime → ℕ → ModelFamily → Option (List String) → ManagedAccount → Bool
unfolding is_busy eligible
is_candidate rt now family busy a = not (is_busy busy a.id) && eligible rt now family a

unfoldable pub keep : (ManagedAccount → Bool) → List ManagedAccount → List ManagedAccount
keep p [] = []
keep p (a ∷ rest) = let kept = keep p rest in if p a then a ∷ kept else kept

unfoldable pub used_at : Option ℕ → ℕ
used_at none = 0
used_at (some t) = t

-- The head of the stable sort by `lastUsedAt ?? 0`: the first of the least recently used.
unfoldable pub least_recent : ManagedAccount → List ManagedAccount → ManagedAccount
unfolding used_at
least_recent best [] = best
least_recent best (a ∷ rest) =
    least_recent (if ltb (used_at a.last_used_at) (used_at best.last_used_at) then a else best) rest

unfoldable pub get_elem? : List ManagedAccount → ℕ → Option ManagedAccount
get_elem? [] i = none
get_elem? (a ∷ rest) zero = some a
get_elem? (a ∷ rest) (suc i) = get_elem? rest i

-- `candidates.some((c) => c.id === id)`
unfoldable pub listed : String → List ManagedAccount → Bool
listed id [] = false
listed id (a ∷ rest) = str_eq a.id id || listed id rest

unfoldable pub index_from : ℕ → String → List ManagedAccount → Option ℕ
index_from i id [] = none
index_from i id (a ∷ rest) = if str_eq a.id id then some i else index_from (i + 1) id rest

-- The loop `for (let i = 1; i < total; i++)`, with `left` rounds to go.
unfoldable pub advance :
    ℕ → ℕ → ℕ → List ManagedAccount → List ManagedAccount → ManagedAccount → ManagedAccount
advance zero i current accounts candidates start = start
advance (suc left) i current accounts candidates start =
    let later = advance left (i + 1) current accounts candidates start in
    elim (get_elem? accounts ((current + i) % length accounts)) [
      | none ↦ later
      | some a ↦ if listed a.id candidates then a else later
    ]

-- The next candidate in cyclic order after the account `active`, or `first`.
unfoldable pub next_account :
    Option String → List ManagedAccount → ManagedAccount → List ManagedAccount → ManagedAccount
unfolding get_elem? listed index_from advance
next_account none accounts first candidates = first
next_account (some active) accounts first candidates = elim (index_from 0 active accounts) [
  | none ↦ first
  | some current ↦ advance (length accounts - 1) 1 current accounts candidates first
]

-- `if (activeId)`: an empty id counts as none.
unfoldable pub active_of : AccountPoolData → ModelFamily → Option String
active_of pool family = elim (pool.active_account_ids family) [
  | none ↦ none
  | some id ↦ if str_eq id "" then none else some id
]

unfoldable pub sticky : Option String → List ManagedAccount → Option ManagedAccount
sticky none candidates = none
sticky (some active) candidates = find active candidates

-- Step 2: the cursor moves on, and is saved with the next debounced write.
unfoldable pub move_on :
    ModelFamily → ManagedAccount → AccountPoolManager → Option ManagedAccount × AccountPoolManager
unfolding put persist_soon with_active
move_on family next m =
    (some next, persist_soon (with_active (put family (some next.id) m.pool.active_account_ids) m))

unfoldable pub drain :
    ModelFamily
    → ManagedAccount
    → List ManagedAccount
    → AccountPoolManager
    → Option ManagedAccount × AccountPoolManager
unfolding sticky move_on next_account active_of
drain family first candidates m = elim (sticky (active_of m.pool family) candidates) [
  | some a ↦ (some a, m)
  | none ↦
      move_on family (next_account (active_of m.pool family) m.pool.accounts first candidates) m
]

-- The choice among the candidates; there is one at least.
unfoldable pub choose_by :
    Mode
    → ModelFamily
    → ManagedAccount
    → List ManagedAccount
    → AccountPoolManager
    → Option ManagedAccount × AccountPoolManager
unfolding least_recent drain
choose_by sequential family first others m = drain family first (first ∷ others) m
choose_by round_robin family first others m =
    if ltb 1 (length (first ∷ others))
    then (some (least_recent first others), m)
    else drain family first (first ∷ others) m

unfoldable pub choose :
    ModelFamily
    → ManagedAccount
    → List ManagedAccount
    → AccountPoolManager
    → Option ManagedAccount × AccountPoolManager
unfolding choose_by
choose family first others m = choose_by m.pool.mode family first others m

unfoldable pub choose_or :
    ModelFamily
    → List ManagedAccount
    → AccountPoolManager
    → Option ManagedAccount × AccountPoolManager
    → Option ManagedAccount × AccountPoolManager
unfolding choose
choose_or family [] m otherwise = otherwise
choose_or family (first ∷ others) m otherwise = choose family first others m

-- `busy !== undefined && busy.size > 0`
unfoldable pub some_busy : Option (List String) → Bool
some_busy none = false
some_busy (some []) = false
some_busy (some (_ ∷ _)) = true

-- The call that ignores who is busy, and the call with the busy filter, which falls back to it.
unfoldable pub select_any :
    Runtime → ℕ → ModelFamily → AccountPoolManager → Option ManagedAccount × AccountPoolManager
unfolding choose_or keep is_candidate
select_any rt now family m =
    choose_or family (keep (is_candidate rt now family none) m.pool.accounts) m (none, m)

unfoldable pub select_account :
    Runtime
    → ℕ
    → ModelFamily
    → Option (List String)
    → AccountPoolManager
    → Option ManagedAccount × AccountPoolManager
unfolding choose_or keep is_candidate select_any some_busy
select_account rt now family busy m =
    choose_or family (keep (is_candidate rt now family busy) m.pool.accounts) m
      (if some_busy busy then select_any rt now family m else (none, m))
