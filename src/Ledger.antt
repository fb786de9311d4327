-- ===== src/Ledger.antt =====
-- src/server/usage-ledger.ts: the buffer of usage rows in front of the database. The database is not
-- part of the model: each transaction's outcome is an argument, and the batches that were committed
-- are kept in a log, in order.
pub mod Pending
pub mod Daily
pub mod Examples
use agy_proxy.Prelude.{
  ℕ, ◌+◌, ◌-◌, ◌*◌, ◌<◌, ◌≤◌, max, Bool, true, false, not, List, [], ◌∷◌, ◌++◌, Option, none, some,
  Text, length, take, drop, eq_text, ltb, leb, ◌==◌, ◌&&◌, ◌||◌, if◌then◌else◌,
}

pub data Protocol : Type 0 where
  openai : Protocol
  anthropic : Protocol

pub record UsageRecord : Type 0 where
  pub request_id : Text
  pub key_id : Option Text
  pub account_id : Option Text
  pub model : Text
  pub family : Text
  pub protocol : Protocol
  pub prompt_tokens : ℕ
  pub completion_tokens : ℕ
  pub reasoning_tokens : Option ℕ
  pub cache_read_tokens : Option ℕ
  pub status : Text
  pub duration_ms : Option ℕ
  pub error_text : Option Text

pub record InsertParams : Type 0 where
  pub request_id : Text
  pub key_id : Option Text
  pub account_id : Option Text
  pub model : Text
  pub family : Text
  pub protocol : Protocol
  pub prompt_tokens : ℕ
  pub completion_tokens : ℕ
  pub reasoning_tokens : Option ℕ
  pub cache_read_tokens : Option ℕ
  pub total_tokens : ℕ
  pub status : Text
  pub duration_ms : Option ℕ
  pub error_text : Option Text
  pub created_at : ℕ

pub record DayTotal : Type 0 where
  pub day : ℕ
  pub total : ℕ

pub record UsageLedger : Type 0 where
  pub buffer : List InsertParams
  pub closed : Bool
  pub flush_interval_ms : ℕ
  pub max_pending_rows : ℕ
  pub tokens_today_cache : List (Text × DayTotal)
  pub warned_closed : Bool
  pub last_warn_at : ℕ
  pub timer_armed : Bool
  -- The transactions that were committed, oldest first.
  pub committed : List InsertParams
  -- How many messages the log received.
  pub logged : ℕ

or_default : ℕ → Option ℕ → ℕ
or_default d none = d
or_default d (some n) = n

unfoldable pub new_ledger : Option ℕ → Option ℕ → UsageLedger
unfolding or_default
new_ledger flush_interval_ms max_pending_rows = record {
  buffer = [];
  closed = false;
  flush_interval_ms = max 50 (or_default 1000 flush_interval_ms);
  max_pending_rows = max 1 (or_default 5000 max_pending_rows);
  tokens_today_cache = [];
  warned_closed = false;
  last_warn_at = 0;
  timer_armed = true;
  committed = [];
  logged = 0;
}

unfoldable pub warn_throttled : ℕ → UsageLedger → UsageLedger
warn_throttled now l =
    if ltb (now - l.last_warn_at) 60000
    then l
    else record l { last_warn_at = now; logged = l.logged + 1 }

stamp : ℕ → List InsertParams → List InsertParams
stamp now [] = []
stamp now (r ∷ rows) = (record r { created_at = now }) ∷ stamp now rows

-- The rows that are over the cap, the oldest, go.
newest : ℕ → List InsertParams → List InsertParams
newest cap rows = drop (length rows - cap) rows

-- `ok` is false when the transaction throws.
unfoldable pub flush : Bool → ℕ → UsageLedger → UsageLedger
unfolding stamp newest
flush ok now l =
    if l.closed || length l.buffer == 0
    then l
    else if ok
    then record l { buffer = []; committed = l.committed ++ stamp now l.buffer }
    else warn_throttled now (record l { buffer = newest l.max_pending_rows l.buffer })

truncated : Option Text → Option Text
truncated none = none
truncated (some []) = none
truncated (some (c ∷ e)) = some (take 500 (c ∷ e))

or_fresh : Text → Text → Text
or_fresh fresh [] = fresh
or_fresh fresh (c ∷ id) = c ∷ id

unfoldable pub insert_params : Text → UsageRecord → InsertParams
unfolding truncated or_fresh
insert_params fresh rec = record {
  request_id = or_fresh fresh rec.request_id;
  key_id = rec.key_id;
  account_id = rec.account_id;
  model = rec.model;
  family = rec.family;
  protocol = rec.protocol;
  prompt_tokens = rec.prompt_tokens;
  completion_tokens = rec.completion_tokens;
  reasoning_tokens = rec.reasoning_tokens;
  cache_read_tokens = rec.cache_read_tokens;
  total_tokens = rec.prompt_tokens + rec.completion_tokens;
  status = rec.status;
  duration_ms = rec.duration_ms;
  error_text = truncated rec.error_text;
  created_at = 0;
}

unfoldable pub lookup_day : Text → List (Text × DayTotal) → Option DayTotal
lookup_day key [] = none
lookup_day key ((k, d) ∷ rest) =
    let later = lookup_day key rest in if eq_text key k then some d else later

unfoldable pub set_day : Text → DayTotal → List (Text × DayTotal) → List (Text × DayTotal)
set_day key d [] = (key, d) ∷ []
set_day key d ((k, e) ∷ rest) =
    let later = set_day key d rest in if eq_text key k then (k, d) ∷ rest else (k, e) ∷ later

-- Only an entry of the same day advances.
advance_day : ℕ → ℕ → Text → List (Text × DayTotal) → List (Text × DayTotal)
advance_day today tokens key cache = elim (lookup_day key cache) [
  | none ↦ cache
  | some d ↦
      if d.day == today
      then set_day key (record { day = today; total = d.total + tokens }) cache
      else cache
]

advance_cache : ℕ → UsageRecord → List (Text × DayTotal) → List (Text × DayTotal)
unfolding advance_day
advance_cache today rec cache = elim rec.key_id [
  | none ↦ cache
  | some key ↦ advance_day today (rec.prompt_tokens + rec.completion_tokens) key cache
]

-- `today` is the midnight before `now`; a full buffer is flushed at once.
unfoldable pub record_usage : Text → UsageRecord → Bool → ℕ → ℕ → UsageLedger → UsageLedger
unfolding advance_cache
record_usage fresh rec ok now today l =
    let pushed : UsageLedger = record l {
      buffer = l.buffer ++ (insert_params fresh rec ∷ []);
      tokens_today_cache = advance_cache today rec l.tokens_today_cache;
    } in
    if l.closed
    then if l.warned_closed then l else record l { warned_closed = true; logged = l.logged + 1 }
    else if leb 500 (length pushed.buffer)
    then flush ok now pushed
    else pushed

-- The rows of one key that are still in the buffer.
unfoldable pub same_key : Text → Option Text → Bool
same_key key none = false
same_key key (some k) = eq_text k key

unfoldable pub buffered_tokens : Text → List InsertParams → ℕ
unfolding same_key
buffered_tokens key [] = 0
buffered_tokens key (r ∷ rows) =
    (if same_key key r.key_id then r.total_tokens else 0) + buffered_tokens key rows

-- `db_sum` is the database's sum for the key since midnight.
unfoldable pub tokens_used_today : Text → ℕ → ℕ → UsageLedger → ℕ × UsageLedger
tokens_used_today key db_sum midnight l =
    let total = db_sum + buffered_tokens key l.buffer in
    let seeded : ℕ × UsageLedger = (
      total,
      record l {
        tokens_today_cache =
            set_day key (record { day = midnight; total = total }) l.tokens_today_cache;
      },
    ) in
    elim (lookup_day key l.tokens_today_cache) [
      | none ↦ seeded
      | some d ↦ if d.day == midnight then (d.total, l) else seeded
    ]

-- `changes` is the number of rows the DELETE removed, `none` when it throws.
unfoldable pub prune_older_than : ℕ → Option ℕ → ℕ → UsageLedger → ℕ × UsageLedger
prune_older_than days changes now l =
    if days == 0
    then (0, l)
    else elim changes [ some n ↦ (n, l) | none ↦ (0, warn_throttled now l) ]

-- The cut-off that the DELETE is given.
unfoldable pub prune_cutoff : ℕ → ℕ → ℕ
prune_cutoff days today = today - days * 86400000

close_buffer : Bool → ℕ → UsageLedger → UsageLedger
unfolding stamp
close_buffer ok now l =
    if length l.buffer == 0
    then l
    else if ok
    then record l { buffer = []; committed = l.committed ++ stamp now l.buffer }
    else warn_throttled now (record l { buffer = [] })

-- `ok` is the last transaction's outcome, `checkpoint_ok` that of the checkpoint.
unfoldable pub close : Bool → Bool → ℕ → UsageLedger → UsageLedger
unfolding close_buffer
close ok checkpoint_ok now l =
    let ended : UsageLedger =
      close_buffer ok now
        (record l { timer_armed = false; closed = true; tokens_today_cache = [] }) in
    if l.closed then l else if checkpoint_ok then ended else warn_throttled now ended

-- The timer's callback: a flush, and the timer again.
unfoldable pub timer_fires : Bool → ℕ → UsageLedger → UsageLedger
timer_fires ok now l =
    let flushed = flush ok now (record l { timer_armed = false }) in
    if flushed.closed then flushed else record flushed { timer_armed = true }
