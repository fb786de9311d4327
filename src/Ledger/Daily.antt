-- ===== src/Ledger/Daily.antt =====
-- The cached day totals of src/server/usage-ledger.ts, behind the daily token budget.
use agy_proxy.Prelude.{
  ℕ, ◌+◌, Bool, false, List, [], ◌∷◌, some, Text, eq_text, eq_text_refl, eq_text→eq, subst, ◌++◌,
  if◌then◌else◌, ◌≡◌, sym, inl, inr, Bool-cases, Option-cases, arith, ap, ◌∙◌,
}
use agy_proxy.Ledger.{
  insert_params, UsageRecord, UsageLedger, DayTotal, lookup_day, set_day, advance_day,
  advance_cache, same_key, flush, warn_throttled, record_usage, tokens_used_today,
}

lookup-set_same :
    (key : Text) (d : DayTotal) (cache : List (Text × DayTotal))
    → lookup_day key (set_day key d cache) ≡ some d
unfolding lookup_day set_day
lookup-set_same key d [] = ground (arith, eq_text_refl key)
lookup-set_same key d ((k, e) ∷ cache) = ground (arith, lookup-set_same key d cache)

lookup-set_other :
    (key other : Text) (d : DayTotal) (cache : List (Text × DayTotal))
    → eq_text key other ≡ false
    → lookup_day key (set_day other d cache) ≡ lookup_day key cache
unfolding lookup_day set_day
lookup-set_other key other d [] h = ground (arith, h)
lookup-set_other key other d ((k, e) ∷ cache) h = elim (Bool-cases (eq_text other k)) [
  | inl q ↦
      let apart = subst (λ t. eq_text key t ≡ false) (eq_text→eq other k q) h in
      ground (arith, h, q, apart)
  | inr q ↦ ground (arith, h, q, lookup-set_other key other d cache h)
]

flush-cache :
    (ok : Bool) (now : ℕ) (l : UsageLedger)
    → (flush ok now l).tokens_today_cache ≡ l.tokens_today_cache
unfolding flush warn_throttled
flush-cache ok now l = ground arith

record-cache :
    (fresh : Text) (rec : UsageRecord) (ok : Bool) (now today : ℕ) (l : UsageLedger)
    → l.closed ≡ false
    → (record_usage fresh rec ok now today l).tokens_today_cache
      ≡ advance_cache today rec l.tokens_today_cache
unfolding record_usage
record-cache fresh rec ok now today l f =
    let pushed = record l {
      buffer = l.buffer ++ (insert_params fresh rec ∷ []);
      tokens_today_cache = advance_cache today rec l.tokens_today_cache;
    } in
    ground (arith, f, flush-cache ok now pushed)

apart_sym : (s t : Text) → eq_text s t ≡ false → eq_text t s ≡ false
apart_sym s t h = elim (Bool-cases (eq_text t s)) [
  | inl e ↦ absurd (
      let same = subst (λ x. eq_text s x ≡ false) (eq_text→eq t s e) h in
      ground (arith, same, eq_text_refl s))
  | inr e ↦ e
]

advance-other :
    (key other : Text) (today tokens : ℕ) (cache : List (Text × DayTotal))
    → eq_text key other ≡ false
    → lookup_day key (advance_day today tokens other cache) ≡ lookup_day key cache
unfolding advance_day
advance-other key other today tokens cache h = elim (Option-cases (lookup_day other cache)) [
  | inl q ↦ ground (arith, q)
  | inr (e, q) ↦
      let kept =
        lookup-set_other key other (record { day = today; total = e.total + tokens }) cache h in
      ground (arith, q, kept)
]

cached-advance :
    (key : Text) (rec : UsageRecord) (today total : ℕ) (cache : List (Text × DayTotal))
    → lookup_day key cache ≡ some (record { day = today; total = total })
    → lookup_day key (advance_cache today rec cache)
      ≡ some (record {
        day = today;
        total =
            total
            + (if same_key key rec.key_id then rec.prompt_tokens + rec.completion_tokens else 0);
      })
unfolding advance_cache advance_day same_key
cached-advance key rec today total cache h = elim (Option-cases rec.key_id) [
  | inl q ↦ ground (arith, h, q)
  | inr (k, q) ↦ elim (Bool-cases (eq_text k key)) [
    | inl s ↦
        let here =
          subst (λ t. lookup_day t cache ≡ some (record { day = today; total = total }))
            (sym (eq_text→eq k key s)) h in
        let d : DayTotal = record {
          day = today;
          total = total + (rec.prompt_tokens + rec.completion_tokens);
        } in
        let found =
          subst (λ t. lookup_day t (set_day k d cache) ≡ some d) (eq_text→eq k key s)
            (lookup-set_same k d cache) in
        ground (arith, here, found, q, s)
    | inr s ↦
        let apart = apart_sym k key s in
        let same =
          advance-other key k today (rec.prompt_tokens + rec.completion_tokens) cache apart in
        ground (arith, h, same, q, s)
  ]
]

-- Once a key's total of the day is cached, a row recorded on that day by an open ledger raises what
-- the key is answered by the row's prompt and completion tokens if the row is the key's, and by
-- nothing otherwise, whether or not the record sets off a flush and however that turns out.
pub day_total_advances :
    (key fresh : Text) (rec : UsageRecord) (ok : Bool) (now today total db_sum : ℕ)
    (l : UsageLedger)
    → l.closed ≡ false
    → lookup_day key l.tokens_today_cache ≡ some (record { day = today; total = total })
    → (tokens_used_today key db_sum today (record_usage fresh rec ok now today l)).0
      ≡ total + (if same_key key rec.key_id then rec.prompt_tokens + rec.completion_tokens else 0)
unfolding tokens_used_today
day_total_advances key fresh rec ok now today total db_sum l f h =
    let cached =
      ap (lookup_day key) (record-cache fresh rec ok now today l f)
      ∙ cached-advance key rec today total l.tokens_today_cache h in
    ground (arith, cached)
