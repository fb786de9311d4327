-- ===== src/Semaphore/Examples.antt =====
-- Runs of the semaphore of src/server/semaphore.ts: one slot and later two, and room for two in the
-- queue.
use agy_proxy.Prelude.{◌≡◌, ◌≢◌, refl, true, false, [], ◌∷◌, ◌++◌, map, arith, inr, take, drop}
use agy_proxy.Semaphore.{
  acquire, on_abort, release, depth, in_flight, woken, dropped, granted, aborted, busy,
}
use agy_proxy.Semaphore.Invariant.{
  System, Inv, Reach, here, next, acquires, start, Reach-Inv, after_acquire,
}
use agy_proxy.Semaphore.Fairness.{release_times, releases_serve_in_order, handed_over_slot_is_taken}

-- One call runs and two wait. The limit was raised before the last call.
abbrev crowded : System
crowded = after_acquire two (acquire 2 2 false two.sem)
  where
    one : System
    one = after_acquire start (acquire 1 2 false start.sem)

    two : System
    two = after_acquire one (acquire 1 2 false one.sem)

crowded-Reach : Reach 1 2 2 start crowded
crowded-Reach =
    next
      (next (next here (acquires 1 2 false _ (omega arith) (omega arith) (omega arith)))
        (acquires 1 2 false _ (omega arith) (omega arith) (omega arith)))
      (acquires 2 2 false _ (omega arith) (omega arith) (omega arith))

crowded_depth : depth crowded.sem ≡ 2
unfolding depth acquire start
crowded_depth = refl

crowded_in_flight : in_flight crowded.sem ≡ 1
unfolding in_flight acquire start
crowded_in_flight = refl

crowded_full : (acquire 1 2 false crowded.sem).0 ≡ busy
unfolding acquire start
crowded_full = refl

crowded_aborted : (acquire 1 2 true crowded.sem).0 ≡ aborted
unfolding acquire start
crowded_aborted = refl

-- The first waiter aborts, so the release wakes the second.
skips_aborted : (release (on_abort 0 crowded.sem)).outcomes ≡ dropped 0 ∷ woken 1 ∷ []
unfolding release on_abort acquire start
skips_aborted = refl

Reach-Inv_example : Inv 1 2 2 crowded
Reach-Inv_example = Reach-Inv 1 2 2 crowded-Reach

crowded_waiting : crowded.sem.waiting ≡ 0 ∷ 1 ∷ []
unfolding acquire start
crowded_waiting = refl

releases_serve_in_order_example :
    ((release_times 1 crowded.sem).waiting ≡ drop 1 crowded.sem.waiting)
    × ((release_times 1 crowded.sem).outcomes
        ≡ crowded.sem.outcomes ++ map woken (take 1 crowded.sem.waiting))
    × ((release_times 1 crowded.sem).active ≡ crowded.sem.active)
unfolding acquire start
releases_serve_in_order_example = releases_serve_in_order 1 2 2 crowded-Reach 1 (omega arith)

handed_over_slot_is_taken_example : (acquire 2 2 false (release crowded.sem)).0 ≢ granted
handed_over_slot_is_taken_example =
    handed_over_slot_is_taken 1 2 2 crowded-Reach 2 2 false 0 (1 ∷ []) crowded_waiting
      (inr (omega arith))
