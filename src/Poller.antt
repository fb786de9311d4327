-- ===== src/Poller.antt =====
-- `startCatalogPoller` of src/host/catalog-poller.ts.
--
-- A tick is two steps where it waits for the catalogue: what `canDiscover` answers when the timer
-- ends, and what `refreshIfNeeded` answers. `stop` may come between the two.
mod Alive
mod Examples
use agy_proxy.Prelude.{
  ℕ, suc, Bool, true, false, ◌||◌, List, [], ◌∷◌, Option, none, some, Text, codes, eq_text, ◌*◌,
  ◌^◌, min, ltb, if◌then◌else◌, ◌≡◌,
}

unfoldable pub catalog_poll_interval_ms : ℕ
catalog_poll_interval_ms = 60000

unfoldable pub catalog_backoff_max_ms : ℕ
catalog_backoff_max_ms = 600000

-- A failure comes with the last error of the catalogue.
pub data Outcome : Type 0 where
  healthy : Outcome
  failed : Option Text → Outcome
  rejected : Outcome

pub data CanDiscover : Type 0 where
  yes : CanDiscover
  no : CanDiscover
  throws : CanDiscover

pub data Message : Type 0 where
  recovered : Message
  failing : ℕ → Text → Message
  still_failing : ℕ → Message

-- `waiting` is a tick that awaits the catalogue; `messages` is the log, the latest first.
pub record CatalogPoller : Type 0 where
  stopped : Bool
  timer : Option ℕ
  waiting : Bool
  failures : ℕ
  last_reported : Option Text
  messages : List Message

unfoldable pub schedule : ℕ → CatalogPoller → CatalogPoller
schedule ms p = if p.stopped then p else record p { timer = some ms }

unfoldable pub start : CatalogPoller
start = schedule catalog_poll_interval_ms (record {
  stopped = false;
  timer = none;
  waiting = false;
  failures = 0;
  last_reported = none;
  messages = [];
})

unfoldable pub reset : CatalogPoller → CatalogPoller
reset p = record p { failures = 0; last_reported = none }

unfoldable pub is_reported : Text → Option Text → Bool
is_reported message none = false
is_reported message (some t) = eq_text message t

unfoldable pub is_some : Option Text → Bool
is_some none = false
is_some (some t) = true

unfoldable pub message_or : Option Text → Text
message_or none = codes "model discovery failed"
message_or (some t) = t

-- The first half of `tick`, when the timer has ended.
unfoldable pub tick : CanDiscover → CatalogPoller → CatalogPoller
tick yes p = if p.stopped then p else record p { waiting = true }
tick no p = if p.stopped then p else schedule catalog_poll_interval_ms (reset p)
tick throws p = if p.stopped then p else schedule catalog_poll_interval_ms p

unfoldable pub note_recovery : CatalogPoller → CatalogPoller
note_recovery p =
    if ltb 0 p.failures || is_some p.last_reported
    then record p { messages = recovered ∷ p.messages }
    else p

unfoldable pub note_failure : Text → CatalogPoller → CatalogPoller
note_failure message p =
    if is_reported message p.last_reported
    then record p { messages = still_failing p.failures ∷ p.messages }
    else record p {
      messages = failing p.failures message ∷ p.messages;
      last_reported = some message;
    }

unfoldable pub backoff : ℕ → ℕ
backoff failures = min (catalog_poll_interval_ms * 2 ^ failures) catalog_backoff_max_ms

unfoldable pub back_off : CatalogPoller → CatalogPoller
back_off p = schedule (backoff p.failures) p

-- The second half of `tick`.
unfoldable pub settle : Outcome → CatalogPoller → CatalogPoller
settle healthy p = schedule catalog_poll_interval_ms (reset (note_recovery p))
settle (failed e) p =
    back_off (note_failure (message_or e) (record p { failures = suc p.failures }))
settle rejected p = schedule catalog_poll_interval_ms p

unfoldable pub stop : CatalogPoller → CatalogPoller
stop p = record p { stopped = true; timer = none }

-- A timer ends when it is set, and an answer comes when one is awaited; `stop` may be called anytime.
pub data Step : CatalogPoller → CatalogPoller → Type 0 where
  timer_ends :
      (can : CanDiscover) (ms : ℕ) (p : CatalogPoller)
      → p.timer ≡ some ms
      → Step p (tick can (record p { timer = none }))
  answers :
      (o : Outcome) (p : CatalogPoller)
      → p.waiting ≡ true
      → Step p (settle o (record p { waiting = false }))
  stops : (p : CatalogPoller) → Step p (stop p)

pub data Reach : CatalogPoller → Type 0 where
  started : Reach start
  then_step : {p q : CatalogPoller} → Reach p → Step p q → Reach q
