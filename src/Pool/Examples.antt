-- ===== src/Pool/Examples.antt =====
-- A pool of two accounts, for src/host/pool.ts.
use agy_proxy.Prelude.{
  ℕ, ◌<◌, ◌≡◌, ◌⊎◌, refl, inl, true, false, not, ◌&&◌, List, [], ◌∷◌, Option, none, some, String,
  str_eq, length, arith,
}
use agy_proxy.Pool.{
  ModelFamily, google, ManagedAccount, Runtime, default_pool_data, find, modify, same_family,
  should_poll_account, get_account_health, healthy,
}
use agy_proxy.Pool.Manager.{AccountPoolManager, new_account, timer_fires, flush, mark_auth_required}
use agy_proxy.Pool.Updates.{
  record_failure, record_success, reorder_accounts, failed, cooldown_until,
  get_earliest_reset_countdown,
}
use agy_proxy.Pool.Select.{select_account, eligible, is_busy, drained}
use agy_proxy.Pool.Wellformed.{Has, DistinctIds}
use agy_proxy.Pool.Scheduling.{select_total, select_sound}
use agy_proxy.Pool.Sticky.{select_sticks}
use agy_proxy.Pool.Active.{WellFormed}
use agy_proxy.Pool.Steps.{Reach, here, next, selects, marks_auth, Reach-WellFormed}
use agy_proxy.Pool.Saving.{writes_catch_up}
use agy_proxy.Pool.Cooling.{back_at, failure_isolates, success_restores, reorder_keeps_accounts}

-- No text is a date or a duration.
abbrev plain : Runtime
plain = record { parse_date = λ _. none; parse_reset_duration_ms = λ _ _. none; trim = λ s. s }

abbrev ann : ManagedAccount
ann = new_account 10 "a" "Ann" none none

abbrev bob : ManagedAccount
bob = new_account 20 "b" "Bob" none none

abbrev two : AccountPoolManager
two = record {
  pool = record default_pool_data { accounts = ann ∷ bob ∷ [] };
  persist_dirty = false;
  timer_armed = false;
  disk_ok = true;
  saved = record default_pool_data { accounts = ann ∷ bob ∷ [] };
  notified = 0;
}

two-distinct : DistinctIds two.pool.accounts
unfolding default_pool_data new_account find
two-distinct = (refl, (refl, tt))

two-WellFormed : WellFormed two
unfolding default_pool_data
two-WellFormed = record { distinct = two-distinct; active = λ family id h. absurd (cc h) }

two_select : (select_account plain 100 google none two).0 ≡ some ann
unfolding select_account default_pool_data new_account
two_select = refl

two_spread : (select_account plain 100 google (some ("a" ∷ [])) two).0 ≡ some bob
unfolding select_account default_pool_data new_account
two_spread = refl

ann_polled : should_poll_account 100 ann ≡ true
unfolding should_poll_account new_account
ann_polled = refl

ann_healthy : (get_account_health 100 ann google).status ≡ healthy
unfolding get_account_health new_account
ann_healthy = refl

two_countdown :
    get_earliest_reset_countdown 100 google (record_failure plain 40 "a" google "429" none two)
    ≡ some 899_940
unfolding get_earliest_reset_countdown record_failure cooldown_until default_pool_data new_account
    find modify
two_countdown = refl

select_total_example :
    (a : ManagedAccount) × ((select_account plain 100 google (some ("a" ∷ "b" ∷ [])) two).0
      ≡ some a)
    × (eligible plain 100 google a ≡ true)
    × Has a two.pool.accounts
unfolding default_pool_data eligible new_account
select_total_example =
    select_total plain 100 google (some ("a" ∷ "b" ∷ [])) two ann two-distinct (inl refl) refl

select_sound_example :
    Has ann two.pool.accounts
    × (eligible plain 100 google ann ≡ true)
    × ((b : ManagedAccount)
        → Has b two.pool.accounts
        → eligible plain 100 google b ≡ true
        → is_busy none b.id ≡ false
        → is_busy none ann.id ≡ false)
select_sound_example = select_sound plain 100 google none two two-distinct two_select

select_sticks_example :
    select_account plain 100 google none (select_account plain 100 google none two).1
    ≡ (some ann, (select_account plain 100 google none two).1)
unfolding default_pool_data new_account
select_sticks_example = select_sticks plain 100 google none two refl two-distinct refl two_select

abbrev marked : AccountPoolManager
marked = mark_auth_required "a" none (select_account plain 100 google none two).1

marked-Reach : Reach plain two marked
marked-Reach = next (next here (selects 100 google none)) (marks_auth "a" none)

Reach-WellFormed_example : WellFormed marked
Reach-WellFormed_example = Reach-WellFormed plain two-WellFormed marked-Reach

abbrev chosen : AccountPoolManager
chosen = (select_account plain 100 google none two).1

writes_catch_up_example :
    (((chosen.persist_dirty ≡ true) × (chosen.timer_armed ≡ true))
      ⊎ ((chosen.saved ≡ chosen.pool) ⊎ ((chosen.pool ≡ two.pool) × (chosen.saved ≡ two.saved))))
    × (((flush chosen).saved ≡ chosen.pool)
        ⊎ ((chosen.pool ≡ two.pool) × (chosen.saved ≡ two.saved)))
    × ((flush chosen).pool ≡ chosen.pool)
    × (((timer_fires chosen).saved ≡ chosen.pool)
        ⊎ ((chosen.pool ≡ two.pool) × (chosen.saved ≡ two.saved)))
    × ((timer_fires chosen).pool ≡ chosen.pool)
writes_catch_up_example = writes_catch_up plain refl refl (next here (selects 100 google none))

two_find : find "a" two.pool.accounts ≡ some ann
unfolding default_pool_data new_account find
two_find = refl

failure_isolates_example :
    (100 < back_at plain 100 "a" google "429" none two ann two_find)
    × ((t : ℕ) (busy : Option (List String)) (b : ManagedAccount)
        → t < back_at plain 100 "a" google "429" none two ann two_find
        → (select_account plain t google busy
            (record_failure plain 100 "a" google "429" none two)).0
          ≡ some b
        → str_eq b.id "a" ≡ false)
    × ((t : ℕ) (g : ModelFamily)
        → same_family google g ≡ false
        → eligible plain t g (failed plain 100 two.pool google "429" none ann)
          ≡ eligible plain t g ann)
    × ((j : String)
        → str_eq "a" j ≡ false
        → find j (record_failure plain 100 "a" google "429" none two).pool.accounts
          ≡ find j two.pool.accounts)
unfolding default_pool_data
failure_isolates_example =
    failure_isolates plain 100 "a" google "429" none two ann two_find (omega arith) (omega arith)
      two-distinct

success_restores_example :
    (b : ManagedAccount) × (find "a" (record_success 100 "a" google two).pool.accounts ≡ some b)
    × ((t : ℕ)
        → eligible plain t google b ≡ (ann.enabled && not (drained plain t (ann.quotas google))))
success_restores_example = success_restores plain 100 "a" google two two_find

reorder_keeps_accounts_example :
    ((j : String)
      → find j (reorder_accounts ("b" ∷ "z" ∷ []) two).pool.accounts ≡ find j two.pool.accounts)
    × DistinctIds (reorder_accounts ("b" ∷ "z" ∷ []) two).pool.accounts
    × (length (reorder_accounts ("b" ∷ "z" ∷ []) two).pool.accounts ≡ length two.pool.accounts)
reorder_keeps_accounts_example = reorder_keeps_accounts ("b" ∷ "z" ∷ []) two two-distinct
