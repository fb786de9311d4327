-- ===== src/Poller/Examples.antt =====
-- A run of the poller of src/host/catalog-poller.ts: one tick whose discovery fails.
use agy_proxy.Prelude.{true, false, none, some, codes, ◌≡◌, refl}
use agy_proxy.Poller.{
  CatalogPoller, yes, failed, tick, settle, start, timer_ends, answers, Reach, started, then_step,
  schedule, back_off, backoff, note_failure, is_reported, message_or, catalog_poll_interval_ms,
  catalog_backoff_max_ms,
}
use agy_proxy.Poller.Alive.{Alive, Reach-Alive}

abbrev asking : CatalogPoller
asking = tick yes (record start { timer = none })

abbrev backing_off : CatalogPoller
backing_off = settle (failed (some (codes "no"))) (record asking { waiting = false })

first_timer : start.timer ≡ some 60000
unfolding start schedule catalog_poll_interval_ms
first_timer = refl

awaits : asking.waiting ≡ true
unfolding start schedule tick
awaits = refl

backs_off : Reach backing_off
backs_off =
    then_step (then_step started (timer_ends yes 60000 start first_timer))
      (answers (failed (some (codes "no"))) asking awaits)

doubled : backing_off.timer ≡ some 120000
unfolding start schedule tick settle back_off backoff note_failure is_reported message_or
    catalog_poll_interval_ms catalog_backoff_max_ms
doubled = refl

Reach-Alive_example : Alive backing_off
Reach-Alive_example = Reach-Alive backing_off backs_off
