-- ===== src/Pool/Manager.antt =====
-- The operations of `AccountPoolManager` (src/host/pool.ts) on the pool and its file.
--
-- `disk_ok` says whether a write succeeds at the moment, `saved` is what the file holds, and
-- `notified` counts the notifications of the observers. A date of creation and an id are arguments.
use agy_proxy.Prelude.{
  ℕ, ◌+◌, Bool, true, false, List, [], ◌∷◌, ◌++◌, Option, none, some, String, str_eq, if◌then◌else◌,
}
use agy_proxy.Pool.{
  ModelFamily, ManagedAccount, AccountPoolData, Runtime, find, modify, clear_active, or_text,
}

pub record AccountPoolManager : Type 0 where
  pub pool : AccountPoolData
  pub persist_dirty : Bool
  pub timer_armed : Bool
  pub disk_ok : Bool
  pub saved : AccountPoolData
  pub notified : ℕ

unfoldable pub persist : AccountPoolManager → AccountPoolManager
persist m = record m {
  persist_dirty = false;
  timer_armed = false;
  saved = if m.disk_ok then m.pool else m.saved;
  notified = m.notified + 1;
}

unfoldable pub persist_soon : AccountPoolManager → AccountPoolManager
persist_soon m = record m { persist_dirty = true; timer_armed = true }

unfoldable pub timer_fires : AccountPoolManager → AccountPoolManager
unfolding persist
timer_fires m =
    let idle = record m { timer_armed = false } in if m.persist_dirty then persist idle else idle

unfoldable pub flush : AccountPoolManager → AccountPoolManager
unfolding persist
flush m = if m.persist_dirty then persist m else m

unfoldable pub get_account : String → AccountPoolManager → Option ManagedAccount
get_account id m = find id m.pool.accounts

unfoldable pub with_accounts : List ManagedAccount → AccountPoolManager → AccountPoolManager
with_accounts accounts m = record m { pool = record m.pool { accounts = accounts } }

unfoldable pub with_active : (ModelFamily → Option String) → AccountPoolManager → AccountPoolManager
with_active active m = record m { pool = record m.pool { active_account_ids = active } }

-- An account as a fresh slot or a verified login leaves it.
unfoldable pub new_account : ℕ → String → String → Option String → Option String → ManagedAccount
new_account now id alias email proxy_url = record {
  id = id;
  alias = alias;
  email = email;
  proxy_url = proxy_url;
  enabled = true;
  created_at = now;
  last_used_at = none;
  auth_required = false;
  auth_error = none;
  cooldowns = λ _. none;
  quotas = λ _. none;
}

unfoldable pub commit_staging_account :
    ℕ → String → String → Option String → Option String → AccountPoolManager → AccountPoolManager
unfolding persist with_accounts new_account
commit_staging_account now id alias email proxy_url m =
    persist (with_accounts (m.pool.accounts ++ new_account now id alias email proxy_url ∷ []) m)

unfoldable pub create_account_slot : ℕ → String → String → AccountPoolManager → AccountPoolManager
unfolding persist with_accounts new_account
create_account_slot now id alias m =
    persist (with_accounts (m.pool.accounts ++ new_account now id alias none none ∷ []) m)

-- `splice(findIndex(…), 1)`
unfoldable pub without : String → List ManagedAccount → List ManagedAccount
without id [] = []
without id (a ∷ rest) = if str_eq a.id id then rest else a ∷ without id rest

unless_primary : String → Option String → Option String
unless_primary id none = none
unless_primary id (some j) = if str_eq j id then none else some j

unfoldable pub delete_account : String → AccountPoolManager → Bool × AccountPoolManager
unfolding persist without unless_primary
delete_account id m = elim (find id m.pool.accounts) [
  | none ↦ (false, m)
  | some _ ↦ (
    true,
    persist (record m {
      pool = record m.pool {
        accounts = without id m.pool.accounts;
        primary_account_id = unless_primary id m.pool.primary_account_id;
        active_account_ids = clear_active id m.pool.active_account_ids;
      };
    }),
  )
]

-- A method that assigns to fields of one account, and does nothing where there is none.
unfoldable pub on_account :
    String
    → (ManagedAccount → ManagedAccount)
    → (AccountPoolManager → AccountPoolManager)
    → AccountPoolManager
    → AccountPoolManager
unfolding with_accounts
on_account id f save m = elim (find id m.pool.accounts) [
  | none ↦ m
  | some _ ↦ save (with_accounts (modify id f m.pool.accounts) m)
]

trimmed : Runtime → Option String → Option String
trimmed rt none = none
trimmed rt (some url) = if str_eq (rt.trim url) "" then none else some (rt.trim url)

unfoldable pub set_account_proxy :
    Runtime → String → Option String → AccountPoolManager → AccountPoolManager
unfolding persist on_account trimmed
set_account_proxy rt id url = on_account id (λ a. record a { proxy_url = trimmed rt url }) persist

unfoldable pub set_account_alias :
    Runtime → String → String → AccountPoolManager → AccountPoolManager
unfolding persist on_account
set_account_alias rt id alias = on_account id (λ a. record a { alias = rt.trim alias }) persist

unfoldable pub save_cleared : Bool → String → AccountPoolManager → AccountPoolManager
unfolding persist with_active
save_cleared keep id m =
    if keep then persist m else persist (with_active (clear_active id m.pool.active_account_ids) m)

unfoldable pub set_account_enabled : String → Bool → AccountPoolManager → AccountPoolManager
unfolding on_account save_cleared
set_account_enabled id enabled =
    on_account id (λ a. record a { enabled = enabled }) (save_cleared enabled id)

unfoldable pub mark_auth_required : String → Option String → AccountPoolManager → AccountPoolManager
unfolding on_account save_cleared or_text
mark_auth_required id reason =
    on_account id
      (λ a. record a {
        auth_required = true;
        auth_error = some (or_text reason "Authentication expired or revoked (invalid_grant)");
      })
      (save_cleared false id)

unfoldable pub clear_auth_required : String → AccountPoolManager → AccountPoolManager
unfolding persist on_account
clear_auth_required id =
    on_account id (λ a. record a { auth_required = false; auth_error = none }) persist

unfoldable pub reset_account_identity : String → String → AccountPoolManager → AccountPoolManager
unfolding persist on_account
reset_account_identity id new_email =
    on_account id
      (λ a. record a {
        email = some new_email;
        cooldowns = λ _. none;
        quotas = λ _. none;
        auth_required = false;
        auth_error = none;
      })
      persist
