-- ===== src/Pool.antt =====
-- src/common/pool-types.ts and the data of src/host/pool.ts: accounts, cooldowns and quotas.
--
-- Times are milliseconds. A quota fraction is counted in millionths, so 0.02 is 20000. A
-- `Partial<Record<ModelFamily, …>>` is a function of the family. Directories and the files of an
-- account are not part of the model.
pub mod Manager
pub mod Updates
pub mod Select
pub mod Wellformed
pub mod Choice
pub mod Scheduling
pub mod Lookup
pub mod Active
pub mod Leaves
pub mod Preserve
pub mod Steps
pub mod Sticky
pub mod Saving
pub mod Cooling
pub mod Examples
use agy_proxy.Prelude.{
  ℕ, ◌+◌, ◌-◌, ◌*◌, ◌≡◌, refl, Bool, true, false, ◌&&◌, ◌||◌, not, List, [], ◌∷◌, Option, none,
  some, String, str_eq, ltb, leb, if◌then◌else◌,
}

pub data ModelFamily : Type 0 where
  google anthropic openai unknown : ModelFamily

pub record FamilyQuotaInfo : Type 0 where
  pub remaining_fraction : Option ℕ
  pub reset_time : Option String
  pub weekly_fraction : Option ℕ
  pub weekly_reset_time : Option String

pub record FamilyCooldownState : Type 0 where
  pub cooldown_until : ℕ
  pub reason : String
  pub consecutive_failures : ℕ

pub record ManagedAccount : Type 0 where
  pub id : String
  pub alias : String
  pub email : Option String
  pub proxy_url : Option String
  pub enabled : Bool
  pub created_at : ℕ
  pub last_used_at : Option ℕ
  pub auth_required : Bool
  pub auth_error : Option String
  pub cooldowns : ModelFamily → Option FamilyCooldownState
  pub quotas : ModelFamily → Option FamilyQuotaInfo

pub data Mode : Type 0 where
  sequential round_robin : Mode

pub record AccountPoolData : Type 0 where
  pub mode : Mode
  pub default_cooldown_ms : ℕ
  pub max_cooldown_ms : ℕ
  pub primary_account_id : Option String
  pub active_account_ids : ModelFamily → Option String
  pub accounts : List ManagedAccount

unfoldable pub default_pool_data : AccountPoolData
default_pool_data = record {
  mode = sequential;
  default_cooldown_ms = 15 * 60 * 1000;
  max_cooldown_ms = 60 * 60 * 1000;
  primary_account_id = none;
  active_account_ids = λ _. none;
  accounts = [];
}

pub data AccountHealthStatus : Type 0 where
  healthy cooldown auth_needed disabled : AccountHealthStatus

pub record AccountHealthInfo : Type 0 where
  pub status : AccountHealthStatus
  pub message : Option String
  pub cooldown_ms : Option ℕ

abbrev pub same_family : ModelFamily → ModelFamily → Bool
same_family google google = true
same_family anthropic anthropic = true
same_family openai openai = true
same_family unknown unknown = true
same_family _ _ = false

-- `cd && cd.cooldownUntil > now`
unfoldable pub cooling : ℕ → Option FamilyCooldownState → Bool
cooling now none = false
cooling now (some cd) = ltb now cd.cooldown_until

unfoldable pub should_poll_account : ℕ → ManagedAccount → Bool
unfolding cooling
should_poll_account now a =
    if not a.enabled
    then false
    else if a.auth_required
    then false
    else not (
        cooling now (a.cooldowns google)
        || cooling now (a.cooldowns anthropic)
        || cooling now (a.cooldowns openai)
        || cooling now (a.cooldowns unknown))

-- `account.authError || 'Authentication required'`: an empty text counts as none.
pub or_text : Option String → String → String
or_text none d = d
or_text (some t) d = if str_eq t "" then d else t

health_cooldown : ℕ → Option FamilyCooldownState → AccountHealthInfo
health_cooldown now none = record { status = healthy; message = none; cooldown_ms = none }
health_cooldown now (some cd) =
    if ltb now cd.cooldown_until
    then record {
      status = cooldown;
      message = some cd.reason;
      cooldown_ms = some (cd.cooldown_until - now);
    }
    else record { status = healthy; message = none; cooldown_ms = none }

unfoldable pub get_account_health : ℕ → ManagedAccount → ModelFamily → AccountHealthInfo
unfolding or_text health_cooldown
get_account_health now a family =
    if not a.enabled
    then record { status = disabled; message = some "Account disabled"; cooldown_ms = none }
    else if a.auth_required
    then record {
      status = auth_needed;
      message = some (or_text a.auth_error "Authentication required");
      cooldown_ms = none;
    }
    else health_cooldown now (a.cooldowns family)

-- Functions of the JavaScript runtime, and `parseResetDurationMs` (src/common/types.ts), whose
-- regular expressions are not modelled: its result for a text at a time.
pub record Runtime : Type 0 where
  pub parse_date : String → Option ℕ
  pub parse_reset_duration_ms : String → ℕ → Option ℕ
  pub trim : String → String

-- `accounts.find((a) => a.id === id)`
unfoldable pub find : String → List ManagedAccount → Option ManagedAccount
find id [] = none
find id (a ∷ rest) = if str_eq a.id id then some a else find id rest

-- An assignment to the fields of the account that `find` gives.
unfoldable pub modify :
    String → (ManagedAccount → ManagedAccount) → List ManagedAccount → List ManagedAccount
modify id f [] = []
modify id f (a ∷ rest) = if str_eq a.id id then f a ∷ rest else a ∷ modify id f rest

pub put {ℓ} : {A : Type ℓ} → ModelFamily → A → (ModelFamily → A) → ModelFamily → A
put f v m g = if same_family f g then v else m g

-- `for (const [fam, accId] of Object.entries(active)) if (accId === id) delete active[fam]`
pub clear_active : String → (ModelFamily → Option String) → ModelFamily → Option String
clear_active id active fam = elim (active fam) [
  | none ↦ none
  | some j ↦ if str_eq j id then none else some j
]
