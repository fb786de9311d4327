-- ===== src/Pool/Updates.antt =====
-- The methods of `AccountPoolManager` (src/host/pool.ts) that order the accounts and that keep
-- their quotas and cooldowns. `now` is `Date.now()`.
use agy_proxy.Prelude.{
  ℕ, ◌+◌, ◌-◌, ◌*◌, min, false, ◌&&◌, List, [], ◌∷◌, Option, none, some, String, str_eq, ltb,
  if◌then◌else◌,
}
use agy_proxy.Pool.{
  ModelFamily, FamilyQuotaInfo, FamilyCooldownState, ManagedAccount, Mode, AccountPoolData, Runtime,
  find, put, or_text,
}
use agy_proxy.Pool.Manager.{
  AccountPoolManager, persist, persist_soon, with_accounts, on_account, without,
}

-- The loop over the requested ids, with the accounts that were not mentioned yet. Ids are distinct,
-- so the `Map` of the source holds the accounts in their order.
unfoldable pub reordered : List String → List ManagedAccount → List ManagedAccount
reordered [] remaining = remaining
reordered (id ∷ ids) remaining = elim (find id remaining) [
  | none ↦ reordered ids remaining
  | some a ↦ a ∷ reordered ids (without id remaining)
]

unfoldable pub reorder_accounts : List String → AccountPoolManager → AccountPoolManager
unfolding persist with_accounts
reorder_accounts ids m = persist (with_accounts (reordered ids m.pool.accounts) m)

unfoldable pub set_mode : Mode → AccountPoolManager → AccountPoolManager
unfolding persist
set_mode mode m = persist (record m { pool = record m.pool { mode = mode } })

-- `{ ...acc.quotas, ...quotas }`
merged :
    (ModelFamily → Option FamilyQuotaInfo)
    → (ModelFamily → Option FamilyQuotaInfo)
    → ModelFamily
    → Option FamilyQuotaInfo
merged old new family = elim (new family) [ none ↦ old family | some q ↦ some q ]

new_email : Option String → Option String → Option String
new_email none old = old
new_email (some e) old = if str_eq e "" then old else some e

unfoldable pub update_account_quotas :
    String
    → (ModelFamily → Option FamilyQuotaInfo)
    → Option String
    → AccountPoolManager
    → AccountPoolManager
unfolding persist_soon on_account merged new_email
update_account_quotas id quotas email =
    on_account id
      (λ a. record a { quotas = merged a.quotas quotas; email = new_email email a.email })
      persist_soon

unfoldable pub failures_before : Option FamilyCooldownState → ℕ
failures_before none = 0
failures_before (some cd) = cd.consecutive_failures

-- `Date.now() + Math.min(defaultCooldownMs * failures, maxCooldownMs)`
unfoldable pub backoff : ℕ → AccountPoolData → ℕ → ℕ
backoff now pool failures = now + min (pool.default_cooldown_ms * failures) pool.max_cooldown_ms

unfoldable pub until_date : ℕ → AccountPoolData → ℕ → Option ℕ → ℕ
unfolding backoff
until_date now pool failures none = backoff now pool failures
until_date now pool failures (some t) = if ltb now t then t + 10_000 else backoff now pool failures

-- Where the text gives no duration, or 0: the date that the server named, if it named one.
unfoldable pub until_named : Runtime → ℕ → AccountPoolData → ℕ → Option String → ℕ
unfolding until_date
until_named rt now pool failures none = backoff now pool failures
until_named rt now pool failures (some text) =
    if str_eq text ""
    then backoff now pool failures
    else until_date now pool failures (rt.parse_date text)

unfoldable pub cooldown_until : Runtime → ℕ → AccountPoolData → ℕ → String → Option String → ℕ
unfolding until_named
cooldown_until rt now pool failures reason server_reset_time =
    elim (rt.parse_reset_duration_ms (or_text server_reset_time reason) now) [
      | none ↦ until_named rt now pool failures server_reset_time
      | some duration ↦
          if ltb 0 duration
          then now + duration + 10_000
          else until_named rt now pool failures server_reset_time
    ]

unfoldable pub failed :
    Runtime
    → ℕ
    → AccountPoolData
    → ModelFamily
    → String
    → Option String
    → ManagedAccount
    → ManagedAccount
unfolding failures_before put
failed rt now pool family reason server_reset_time a =
    let failures = failures_before (a.cooldowns family) + 1 in
    record a {
      cooldowns =
          put family
            (some (record {
              cooldown_until = cooldown_until rt now pool failures reason server_reset_time;
              reason = reason;
              consecutive_failures = failures;
            }))
            a.cooldowns;
    }

unfoldable pub record_failure :
    Runtime
    → ℕ
    → String
    → ModelFamily
    → String
    → Option String
    → AccountPoolManager
    → AccountPoolManager
unfolding persist_soon on_account failed
record_failure rt now id family reason server_reset_time m =
    on_account id (failed rt now m.pool family reason server_reset_time) persist_soon m

-- The authentication error is deleted with the flag, and kept where the flag was not set.
unfoldable pub succeeded : ℕ → ModelFamily → ManagedAccount → ManagedAccount
unfolding put
succeeded now family a = record a {
  last_used_at = some now;
  auth_required = false;
  auth_error = if a.auth_required then none else a.auth_error;
  cooldowns = put family none a.cooldowns;
}

unfoldable pub record_success : ℕ → String → ModelFamily → AccountPoolManager → AccountPoolManager
unfolding persist_soon on_account succeeded
record_success now id family = on_account id (succeeded now family) persist_soon

unfoldable pub uncooled : Option ModelFamily → ManagedAccount → ManagedAccount
unfolding put
uncooled none a = record a { cooldowns = λ _. none }
uncooled (some family) a = record a { cooldowns = put family none a.cooldowns }

unfoldable pub uncool_all : Option ModelFamily → List ManagedAccount → List ManagedAccount
uncool_all family [] = []
uncool_all family (a ∷ rest) = uncooled family a ∷ uncool_all family rest

unfoldable pub clear_cooldown :
    Option String → Option ModelFamily → AccountPoolManager → AccountPoolManager
unfolding persist on_account uncooled uncool_all with_accounts
clear_cooldown none family m = persist (with_accounts (uncool_all family m.pool.accounts) m)
clear_cooldown (some id) family m =
    if str_eq id ""
    then persist (with_accounts (uncool_all family m.pool.accounts) m)
    else on_account id (uncooled family) persist m

sooner : ℕ → Option ℕ → Option FamilyCooldownState → Option ℕ
sooner now earliest none = earliest
sooner now none (some cd) = if ltb now cd.cooldown_until then some cd.cooldown_until else none
sooner now (some e) (some cd) =
    if ltb now cd.cooldown_until && ltb cd.cooldown_until e then some cd.cooldown_until else some e

unfoldable pub earliest_reset : ℕ → ModelFamily → Option ℕ → List ManagedAccount → Option ℕ
unfolding sooner
earliest_reset now family earliest [] = earliest
earliest_reset now family earliest (a ∷ rest) =
    earliest_reset now family
      (if a.enabled then sooner now earliest (a.cooldowns family) else earliest) rest

-- `Math.max(0, earliest - now)`
unfoldable pub get_earliest_reset_countdown : ℕ → ModelFamily → AccountPoolManager → Option ℕ
unfolding earliest_reset
get_earliest_reset_countdown now family m = elim (earliest_reset now family none m.pool.accounts) [
  | none ↦ none
  | some e ↦ some (e - now)
]
