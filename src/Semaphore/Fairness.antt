-- ===== src/Semaphore/Fairness.antt =====
-- `release` and the queue (src/server/semaphore.ts), release after release.
use agy_proxy.Prelude.{
  ℕ, zero, suc, ◌≤◌, ◌<◌, ◌≡◌, ◌⊎◌, refl, ◌∙◌, Bool, true, false, List, [], ◌∷◌, ◌++◌, map, arith,
  length, take, drop, All, count, ◌≢◌,
}
use mathlib.Core.List.{append-nil, append_assoc}
use agy_proxy.Semaphore.{Semaphore, woken, granted, acquire, update, release}
use agy_proxy.Semaphore.Invariant.{System, Reach, start, Reach-Inv, Rising}

-- `k` calls of the release function, one after the other.
pub release_times : ℕ → Semaphore → Semaphore
release_times zero s = s
release_times (suc k) s = release_times k (release s)

abbrev Unsettled : Semaphore → List ℕ → Type 0
Unsettled s xs = All (λ t. s.settled t ≡ false) xs

All-of-count :
    (f : ℕ → Bool) (xs : List ℕ)
    → ((t : ℕ) → 0 < count t xs → f t ≡ false)
    → All (λ t. f t ≡ false) xs
All-of-count f [] h = tt
All-of-count f (x ∷ xs) h = (h x (ground arith), All-of-count f xs (λ t c. h t (omega arith)))

-- Settling a ticket below `lo` touches no ticket of a list that rises from `lo`.
Unsettled-update :
    (f : ℕ → Bool) (t lo hi : ℕ) (xs : List ℕ)
    → t < lo
    → Rising lo hi xs
    → All (λ j. f j ≡ false) xs
    → All (λ j. update f t true j ≡ false) xs
unfolding update
Unsettled-update f t lo hi [] h r a = tt
Unsettled-update f t lo hi (x ∷ xs) h r a =
    (ground arith, Unsettled-update f t (suc x) hi xs (omega arith) r.1 a.1)

record Served (s s' : Semaphore) (k : ℕ) (xs : List ℕ) : Type 0 where
  queue : s'.waiting ≡ drop k xs
  order : s'.outcomes ≡ s.outcomes ++ map woken (take k xs)
  slots : s'.active ≡ s.active

release_head :
    (s : Semaphore) (t : ℕ) (rest : List ℕ)
    → s.waiting ≡ t ∷ rest
    → s.settled t ≡ false
    → release s ≡ record s {
      waiting = rest;
      settled = update s.settled t true;
      outcomes = s.outcomes ++ woken t ∷ [];
    }
unfolding release
release_head s t rest e u = rw e (rw u)

release_times-Served :
    (k : ℕ) (s : Semaphore) (lo hi : ℕ) (xs : List ℕ)
    → s.waiting ≡ xs
    → k ≤ length xs
    → Rising lo hi xs
    → Unsettled s xs
    → Served s (release_times k s) k xs
unfolding release_times
release_times-Served zero s lo hi xs e h r u = record {
  queue = e;
  order = simp append-nil;
  slots = refl;
}
release_times-Served (suc k) s lo hi [] e h r u = absurd (omega arith)
release_times-Served (suc k) s lo hi (t ∷ xs) e h r u = rw (release_head s t xs e u.0) (
    let rest =
      release_times-Served k _ (suc t) hi xs refl (omega arith) r.1
        (Unsettled-update s.settled t (suc t) hi xs (omega arith) r.1 u.1) in
    record {
      queue = rest.queue;
      order = rest.order ∙ append_assoc s.outcomes (woken t ∷ []) (map woken (take k xs));
      slots = rest.slots;
    })

module _ (low high queue_high : ℕ) {y : System} (r : Reach low high queue_high start y) where
  queued-Unsettled : Unsettled y.sem y.sem.waiting
  queued-Unsettled =
      All-of-count y.sem.settled y.sem.waiting (λ t c.
        let v = Reach-Inv low high queue_high r in ground (arith, v.conserved t, v.latched t))

  -- In a semaphore reached from the empty one, `k` releases in a row wake the first `k` waiting
  -- calls in their order, leave the others queued in theirs, and pass the slots on: the number in
  -- use stays.
  pub releases_serve_in_order :
      (k : ℕ)
      → k ≤ length y.sem.waiting
      → ((release_times k y.sem).waiting ≡ drop k y.sem.waiting)
        × ((release_times k y.sem).outcomes ≡ y.sem.outcomes ++ map woken (take k y.sem.waiting))
        × ((release_times k y.sem).active ≡ y.sem.active)
  releases_serve_in_order k h =
      let served =
        release_times-Served k y.sem 0 y.sem.next_ticket y.sem.waiting refl h
          (Reach-Inv low high queue_high r).in_order queued-Unsettled in
      (served.queue, served.order, served.slots)

  -- A call made right after a release that woke someone is not granted, if another call still waits,
  -- or if its limit is not above `low`, the lowest that the calls have read: the slot belongs to the
  -- woken call already, so nobody gets past it.
  pub handed_over_slot_is_taken :
      (max max_queued : ℕ) (a : Bool) (t : ℕ) (rest : List ℕ)
      → y.sem.waiting ≡ t ∷ rest
      → (max ≤ low) ⊎ (0 < length rest)
      → (acquire max max_queued a (release y.sem)).0 ≢ granted
  unfolding acquire
  handed_over_slot_is_taken max max_queued a t rest e others =
      let v = Reach-Inv low high queue_high r in
      rw (release_head y.sem t rest e (ground (arith, v.conserved t, v.latched t)))
        (ground (arith, v.full, others))
