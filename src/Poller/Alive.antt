-- ===== src/Poller/Alive.antt =====
-- The life of the poller of src/host/catalog-poller.ts.
use agy_proxy.Prelude.{
  ℕ, zero, suc, true, false, none, some, Text, ◌≡◌, refl, ◌∙◌, sym, arith, ◌⊎◌, inl, inr, ◌*◌, ◌^◌,
  ◌≤◌, false≢true, Bool-cases, if-true, if-false, subst,
}
use agy_proxy.Poller.{
  CatalogPoller, CanDiscover, yes, no, throws, Outcome, healthy, failed, rejected, schedule, start,
  reset, tick, note_recovery, note_failure, backoff, back_off, settle, stop, Step, timer_ends,
  answers, stops, Reach, started, then_step, catalog_poll_interval_ms, catalog_backoff_max_ms,
  message_or,
}

-- The next timer: within the bounds, and never later than the failures in a row ask for.
pub Timed : CatalogPoller → ℕ → Type 0
Timed p ms =
    (p.timer ≡ some ms)
    × (catalog_poll_interval_ms ≤ ms)
    × (ms ≤ catalog_backoff_max_ms)
    × (ms ≤ catalog_poll_interval_ms * 2 ^ p.failures)

-- A poller that is not stopped waits for one thing, its timer or the catalogue; one that is stopped
-- has no timer.
pub Alive : CatalogPoller → Type 0
Alive p =
    ((p.stopped ≡ true) × (p.timer ≡ none))
    ⊎ ((p.stopped ≡ false)
        × (((p.waiting ≡ true) × (p.timer ≡ none))
            ⊎ ((p.waiting ≡ false) × ((ms : ℕ) × Timed p ms))))

one_power : (n : ℕ) → 1 ≤ 2 ^ n
one_power zero = ground arith
one_power (suc n) = ground (arith, one_power n)

backoff-bounds :
    (n : ℕ)
    → (catalog_poll_interval_ms ≤ backoff n)
      × (backoff n ≤ catalog_backoff_max_ms)
      × (backoff n ≤ catalog_poll_interval_ms * 2 ^ n)
unfolding backoff catalog_poll_interval_ms catalog_backoff_max_ms
backoff-bounds n = ground (arith, one_power n)

-- What holds between two steps, with a poller whose timer has ended or whose answer has come.
Idle : CatalogPoller → Type 0
Idle p = (p.timer ≡ none) × (p.waiting ≡ false)

schedule-Alive :
    (ms : ℕ) (p : CatalogPoller)
    → Idle p
    → (catalog_poll_interval_ms ≤ ms)
      × (ms ≤ catalog_backoff_max_ms)
      × (ms ≤ catalog_poll_interval_ms * 2 ^ p.failures)
    → Alive (schedule ms p)
unfolding schedule Alive Idle Timed
schedule-Alive ms p i b = elim (Bool-cases p.stopped) [
  | inl e ↦ subst Alive (sym (if-true p.stopped p (record p { timer = some ms }) e)) (inl (e, i.0))
  | inr e ↦
      subst Alive (sym (if-false p.stopped p (record p { timer = some ms }) e))
        (inr (e, inr (i.1, (ms, (refl, b.0, b.1, b.2)))))
]

interval-bounds :
    (n : ℕ)
    → (catalog_poll_interval_ms ≤ catalog_poll_interval_ms)
      × (catalog_poll_interval_ms ≤ catalog_backoff_max_ms)
      × (catalog_poll_interval_ms ≤ catalog_poll_interval_ms * 2 ^ n)
unfolding catalog_poll_interval_ms catalog_backoff_max_ms
interval-bounds n = ground (arith, one_power n)

at_interval-Alive : (p : CatalogPoller) → Idle p → Alive (schedule catalog_poll_interval_ms p)
at_interval-Alive p i = schedule-Alive catalog_poll_interval_ms p i (interval-bounds p.failures)

back_off-Alive : (p : CatalogPoller) → Idle p → Alive (back_off p)
unfolding back_off
back_off-Alive p i = schedule-Alive (backoff p.failures) p i (backoff-bounds p.failures)

recovery-Idle : (p : CatalogPoller) → Idle p → Idle (note_recovery p)
unfolding note_recovery Idle
recovery-Idle p i = ground (arith, i)

failure-Idle : (m : Text) (p : CatalogPoller) → Idle p → Idle (note_failure m p)
unfolding note_failure Idle
failure-Idle m p i = ground (arith, i)

settle-Alive : (o : Outcome) (p : CatalogPoller) → Idle p → Alive (settle o p)
unfolding settle reset Idle
settle-Alive healthy p i = at_interval-Alive (reset (note_recovery p)) (recovery-Idle p i)
settle-Alive (failed e) p i =
    back_off-Alive (note_failure (message_or e) (record p { failures = suc p.failures }))
      (failure-Idle (message_or e) (record p { failures = suc p.failures }) i)
settle-Alive rejected p i = at_interval-Alive p i

tick-Alive :
    (can : CanDiscover) (p : CatalogPoller) → p.stopped ≡ false → Idle p → Alive (tick can p)
unfolding tick Idle reset Alive
tick-Alive yes p e i =
    subst Alive (sym (if-false p.stopped p (record p { waiting = true }) e))
      (inr (e, inl (refl, i.0)))
tick-Alive no p e i =
    subst Alive (sym (if-false p.stopped p (schedule catalog_poll_interval_ms (reset p)) e))
      (at_interval-Alive (reset p) i)
tick-Alive throws p e i =
    subst Alive (sym (if-false p.stopped p (schedule catalog_poll_interval_ms p) e))
      (at_interval-Alive p i)

timed-Idle :
    (p : CatalogPoller) (ms : ℕ)
    → Alive p
    → p.timer ≡ some ms
    → (p.stopped ≡ false) × (p.waiting ≡ false)
unfolding Alive
timed-Idle p ms (inl (e, none_set)) t = ground (arith, none_set, t)
timed-Idle p ms (inr (e, inl (w, none_set))) t = ground (arith, none_set, t)
timed-Idle p ms (inr (e, inr (w, timed))) t = (e, w)

waiting-timer : (p : CatalogPoller) → Alive p → p.waiting ≡ true → p.timer ≡ none
unfolding Alive
waiting-timer p (inl (e, none_set)) w = none_set
waiting-timer p (inr (e, inl (v, none_set))) w = none_set
waiting-timer p (inr (e, inr (v, timed))) w = absurd (false≢true (sym v ∙ w))

step-Alive : {p q : CatalogPoller} → Step p q → Alive p → Alive q
unfolding stop Alive Idle
step-Alive (timer_ends can ms p t) a =
    let idle = timed-Idle p ms a t in
    tick-Alive can (record p { timer = none }) idle.0 (refl, idle.1)
step-Alive (answers o p w) a =
    settle-Alive o (record p { waiting = false }) (waiting-timer p a w, refl)
step-Alive (stops p) a = inl (refl, refl)

-- Whatever the catalogue answers and whenever `stop` comes, the poller never dies unless it is
-- stopped: it has its next timer or awaits an answer, never both, with a delay from the interval up
-- to the ceiling and never above the interval doubled once for each failure in a row. Once it is
-- stopped it never sets a timer again.
pub Reach-Alive : (p : CatalogPoller) → Reach p → Alive p
unfolding start Idle
Reach-Alive p started = at_interval-Alive _ (refl, refl)
Reach-Alive p (then_step {p = before} r s) = step-Alive s (Reach-Alive before r)
