-- ===== src/Auth/Verdicts.antt =====
-- The verdicts of the hook of src/server/auth.ts, with their reasons.
use agy_proxy.Prelude.{
  ℕ, Bool, true, false, not, ◌&&◌, ◌||◌, [], ◌∷◌, ◌++◌, Option, none, some, Text, codes, eq_text,
  ltb, leb, ◌==◌, if◌then◌else◌, ◌≡◌, refl, ap, ◌∙◌, sym, arith, inl, inr, ◌⊎◌, eq_text→eq,
}
use agy_proxy.Errors.{GatewayHttpError, auth_error_for, quota_reject_for, http_error}
use agy_proxy.Keys
use agy_proxy.Keys.{ApiKeyRecord, KeyStore, KeyVerifyResult, ok, unknown, disabled, verify}
use agy_proxy.Ledger.{UsageLedger, tokens_used_today}
use agy_proxy.Auth.{
  Reply, admitted, rejected, Request, Moment, Gate, auth_hook, api_key_from, key_matches,
  no_managed_keys, check_provided, check_managed, judge_managed, check_rate, judge_rate,
  check_budget, judge_budget, admit, invalid_key, missing_key, key_disabled, over_rate, over_budget,
  limiter_key,
}

is_none : Option ℕ → Bool
is_none none = true
is_none (some n) = false

-- The rate of a key has room.
unfoldable pub has_point : ApiKeyRecord → Moment → Bool
unfolding is_none
has_point key m = key.rpm_limit == 0 || is_none m.wait_ms

within_budget : ApiKeyRecord → Moment → Option UsageLedger → Bool
within_budget key m none = true
within_budget key m (some l) =
    ltb (tokens_used_today key.id m.db_sum m.midnight l).0 key.daily_token_limit

-- The day's tokens of a key have room.
unfoldable pub has_budget : ApiKeyRecord → Moment → Gate → Bool
unfolding within_budget
has_budget key m g = key.daily_token_limit == 0 || within_budget key m g.ledger

-- The request's key verifies as such a result.
pub Verifies : Keys.Host → Request → Gate → KeyVerifyResult → Type 0
Verifies host request g v =
    (provided : Text) × (s : KeyStore) × (api_key_from host.trim request.headers ≡ some provided)
    × (g.keys ≡ some s)
    × (verify host provided s ≡ v)

pub IsRoot : Keys.Host → Text → Request → Type 0
IsRoot host api_key request =
    (provided : Text) × (api_key_from host.trim request.headers ≡ some provided)
    × (key_matches host api_key provided ≡ true)

-- Why a request is not authenticated.
pub IsUnknown : Keys.Host → Request → Gate → Type 0
IsUnknown host request g =
    (api_key_from host.trim request.headers ≡ none)
    ⊎ (Verifies host request g unknown ⊎ (g.keys ≡ none))

unfoldable pub status_of : GatewayHttpError → ℕ
status_of e = e.status_code

pub Verdict : Keys.Host → Text → Request → Moment → Gate → Reply → Type 0
Verdict host api_key request m g (admitted none name) =
    ((api_key ≡ []) × (no_managed_keys g.keys ≡ true)) ⊎ IsRoot host api_key request
Verdict host api_key request m g (admitted (some id) name) =
    (key : ApiKeyRecord) × Verifies host request g (ok key)
    × (key.id ≡ id)
    × (has_point key m ≡ true)
    × (has_budget key m g ≡ true)
Verdict host api_key request m g (rejected e) =
    ((status_of e ≡ 401) × IsUnknown host request g)
    ⊎ (((key : ApiKeyRecord) × (status_of e ≡ 403) × Verifies host request g (disabled key))
        ⊎ ((key : ApiKeyRecord) × (status_of e ≡ 429)
            × Verifies host request g (ok key)
            × ((has_point key m ≡ false) ⊎ (has_budget key m g ≡ false))))

auth_error-401 :
    (url message : Text) (id : Option Text) → status_of (auth_error_for url message id) ≡ 401
unfolding auth_error_for status_of http_error
auth_error-401 url message id = ground arith

quota_reject-429 :
    (url message : Text) (ms : ℕ) (id : Option Text)
    → status_of (quota_reject_for url message ms id) ≡ 429
unfolding quota_reject_for status_of
quota_reject-429 url message ms id = ground arith

module _ (host : Keys.Host) (api_key : Text) (request : Request) (m : Moment) (g : Gate) where
  Verdict-if :
      (b : Bool) (x y : Reply × Gate)
      → (b ≡ true → Verdict host api_key request m g x.0)
      → (b ≡ false → Verdict host api_key request m g y.0)
      → Verdict host api_key request m g (if b then x else y).0
  Verdict-if true x y hx hy = hx refl
  Verdict-if false x y hx hy = hy refl

  budget-of :
      (key : ApiKeyRecord) (l : Option UsageLedger)
      → g.ledger ≡ l
      → has_budget key m g ≡ (key.daily_token_limit == 0 || within_budget key m l)
  unfolding has_budget
  budget-of key l e = ap (λ v. key.daily_token_limit == 0 || within_budget key m v) e

  judged-Verdict :
      (key : ApiKeyRecord) (l : Option UsageLedger) (h : Gate)
      → g.ledger ≡ l
      → Verifies host request g (ok key)
      → has_point key m ≡ true
      → ltb 0 key.daily_token_limit ≡ true
      → Verdict host api_key request m g (judge_budget request key m l h).0
  unfolding judge_budget admit Verdict over_budget within_budget
  judged-Verdict key none h e v point limited =
      (key, v, refl, point, budget-of key none e ∙ ground arith)
  judged-Verdict key (some l) h e v point limited =
      let used = tokens_used_today key.id m.db_sum m.midnight l in
      let read : Gate = record h { ledger = some used.1 } in
      Verdict-if (leb key.daily_token_limit used.0) (over_budget request key m used.0, read)
        (admit key m read)
        (λ full. inr (
          inr (
            key,
            quota_reject-429 request.url _ _ request.id,
            v,
            inr (budget-of key (some l) e ∙ ground (arith, full, limited)),
          )))
        (λ room. (key, v, refl, point, budget-of key (some l) e ∙ ground (arith, room)))

  -- What holds of a gate that the hook has changed before it looks at the budget.
  budget-Verdict :
      (key : ApiKeyRecord) (h : Gate)
      → h.ledger ≡ g.ledger
      → Verifies host request g (ok key)
      → has_point key m ≡ true
      → Verdict host api_key request m g (check_budget request key m h).0
  unfolding check_budget admit Verdict has_budget
  budget-Verdict key h same v point =
      Verdict-if (ltb 0 key.daily_token_limit) (judge_budget request key m h.ledger h)
        (admit key m h) (λ limited. judged-Verdict key h.ledger h (sym same) v point limited)
        (λ free. (key, v, refl, point, ground (arith, free)))

  judge_rate-Verdict :
      (key : ApiKeyRecord) (w : Option ℕ) (h : Gate)
      → m.wait_ms ≡ w
      → h.ledger ≡ g.ledger
      → Verifies host request g (ok key)
      → ltb 0 key.rpm_limit ≡ true
      → Verdict host api_key request m g (judge_rate request key m w h).0
  unfolding judge_rate Verdict over_rate has_point is_none
  judge_rate-Verdict key none h e same v limited =
      budget-Verdict key h same v (ap (λ w. key.rpm_limit == 0 || is_none w) e ∙ ground arith)
  judge_rate-Verdict key (some wait_ms) h e same v limited = inr (
      inr (
        key,
        quota_reject-429 request.url _ _ request.id,
        v,
        inl (ap (λ w. key.rpm_limit == 0 || is_none w) e ∙ ground (arith, limited)),
      ))

  rate-Verdict :
      (key : ApiKeyRecord)
      → Verifies host request g (ok key)
      → Verdict host api_key request m g (check_rate request key m g).0
  unfolding check_rate has_point
  rate-Verdict key v =
      let taken : Gate = record g { consumed = g.consumed ++ (limiter_key key ∷ []) } in
      Verdict-if (ltb 0 key.rpm_limit) (judge_rate request key m m.wait_ms taken)
        (check_budget request key m g)
        (λ limited. judge_rate-Verdict key m.wait_ms taken refl refl v limited)
        (λ free. budget-Verdict key g refl v (ground (arith, free)))

  managed-Verdict :
      (provided : Text) (s : KeyStore)
      → api_key_from host.trim request.headers ≡ some provided
      → g.keys ≡ some s
      → (v : KeyVerifyResult) → verify host provided s ≡ v
      → Verdict host api_key request m g (judge_managed request m v g).0
  unfolding judge_managed Verdict Verifies invalid_key key_disabled IsUnknown status_of http_error
  managed-Verdict provided s from keys unknown h = inl (
    auth_error-401 request.url (codes "Invalid API key provided.") request.id,
    inr (inl (provided, s, from, keys, h)),
  )
  managed-Verdict provided s from keys (disabled key) h =
      inr (inl (key, ground arith, (provided, s, from, keys, h)))
  managed-Verdict provided s from keys (ok key) h = rate-Verdict key (provided, s, from, keys, h)

  managed_by-Verdict :
      (provided : Text) (stored : Option KeyStore)
      → api_key_from host.trim request.headers ≡ some provided
      → g.keys ≡ stored
      → Verdict host api_key request m g (check_managed host request m provided stored g).0
  unfolding check_managed Verdict invalid_key IsUnknown
  managed_by-Verdict provided none from keys =
      inl
        (auth_error-401 request.url (codes "Invalid API key provided.") request.id, inr (inr keys))
  managed_by-Verdict provided (some s) from keys =
      managed-Verdict provided s from keys (verify host provided s) refl

  provided-Verdict :
      (key : Option Text)
      → api_key_from host.trim request.headers ≡ key
      → Verdict host api_key request m g (check_provided host api_key request m key g).0
  unfolding check_provided Verdict missing_key IsUnknown IsRoot
  provided-Verdict none from = inl (auth_error-401 request.url _ request.id, inl from)
  provided-Verdict (some provided) from =
      Verdict-if (not (eq_text api_key []) && key_matches host api_key provided)
        (admitted none (codes "root"), g) (check_managed host request m provided g.keys g)
        (λ root. inr (provided, from, ground (arith, root)))
        (λ _. managed_by-Verdict provided g.keys from refl)

-- Every verdict of the hook has its reason. A request is admitted without a key of the store only if
-- there is no root key and no key at all, or if it carries the root key; as a key of the store only if
-- it carries that key, enabled, with a point left in its rate and tokens left in its day, or with no
-- such limit. It is rejected with 401 if it carries no key, or one that is unknown, or there is no
-- store; with 403 if its key is disabled; with 429 if its key is enabled and one of its limits is
-- reached; and with nothing else.
pub auth_hook-Verdict :
    (host : Keys.Host) (api_key : Text) (request : Request) (m : Moment) (g : Gate)
    → Verdict host api_key request m g (auth_hook host api_key request m g).0
unfolding auth_hook Verdict
auth_hook-Verdict host api_key request m g =
    let checked =
      check_provided host api_key request m (api_key_from host.trim request.headers) g in
    Verdict-if host api_key request m g (eq_text api_key [] && no_managed_keys g.keys)
      (admitted none (codes "anon"), g) checked
      (λ open_gate.
        inl (eq_text→eq api_key [] (ground (arith, open_gate)), ground (arith, open_gate)))
      (λ _. provided-Verdict host api_key request m g (api_key_from host.trim request.headers) refl)
