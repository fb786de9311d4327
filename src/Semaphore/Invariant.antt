-- ===== src/Semaphore/Invariant.antt =====
-- Interleavings of acquires, aborts and releases (src/server/semaphore.ts), and their invariant.
use agy_proxy.Prelude.{
  ℕ, suc, ◌+◌, ◌-◌, ◌≤◌, ◌<◌, ◌≡◌, refl, ◌⊎◌, inl, inr, Bool, true, false, List, [], ◌∷◌, ◌++◌, map,
  arith, length, length-append, ltb, ◌==◌, if◌then◌else◌, count, count-append,
}
use agy_proxy.Semaphore.{
  Semaphore, Outcome, woken, dropped, Acquired, granted, parked, aborted, busy, acquire, update,
  remove, on_abort, release, release_from, init,
}

-- The semaphore and two counts that its callers could keep: fast grants, and calls of the release
-- function.
pub record System : Type 0 where
  pub sem : Semaphore
  pub grants : ℕ
  pub releases : ℕ

abbrev pub ticket : Outcome → ℕ
ticket (woken t) = t
ticket (dropped t) = t

abbrev pub tickets : List Outcome → List ℕ
tickets = map ticket

abbrev pub woken_count : List Outcome → ℕ
woken_count [] = 0
woken_count (woken t ∷ os) = suc (woken_count os)
woken_count (dropped t ∷ os) = woken_count os

abbrev pub after_acquire : System → Acquired × Semaphore → System
after_acquire y (granted, s) = record y { sem = s; grants = y.grants + 1 }
after_acquire y (parked t, s) = record y { sem = s }
after_acquire y (aborted, s) = record y { sem = s }
after_acquire y (busy, s) = record y { sem = s }

-- One step of the event loop: a call, an abort event of a call that was parked, or the release
-- function of a slot that is held. The limits may change from call to call; `max()` answers with
-- `low` at least and `high` at most, `maxQueued()` with `queue_high` at most.
pub data Step (low high queue_high : ℕ) : System → System → Type 0 where
  acquires :
      (max max_queued : ℕ) (a : Bool) (y : System)
      → low ≤ max
      → max ≤ high
      → max_queued ≤ queue_high
      → Step low high queue_high y (after_acquire y (acquire max max_queued a y.sem))
  aborts :
      (t : ℕ) (y : System)
      → t < y.sem.next_ticket
      → Step low high queue_high y (record y { sem = on_abort t y.sem })
  releases :
      (y : System)
      → y.releases < y.grants + woken_count y.sem.outcomes
      → Step low high queue_high y (record y { sem = release y.sem; releases = y.releases + 1 })

pub data Reach (low high queue_high : ℕ) (y : System) : System → Type 0 where
  here : Reach low high queue_high y y
  next :
      {z w : System}
      → Reach low high queue_high y z
      → Step low high queue_high z w
      → Reach low high queue_high y w

-- The entries rise from `lo` and stay below `hi`.
abbrev pub Rising : ℕ → ℕ → List ℕ → Type 0
Rising lo hi [] = lo ≤ hi
Rising lo hi (x ∷ xs) = (lo ≤ x) × Rising (suc x) hi xs

pub record Inv (low high queue_high : ℕ) (y : System) : Type 0 where
  -- Every slot in use is held by one caller.
  pub balance : y.sem.active + y.releases ≡ y.grants + woken_count y.sem.outcomes
  pub bounded : y.sem.active ≤ high
  -- While a call waits, the slots up to the lowest limit are in use.
  pub full : (y.sem.waiting ≡ []) ⊎ (low ≤ y.sem.active)
  pub queue_bounded : length y.sem.waiting ≤ queue_high
  -- A call that was parked stands in the queue or was settled, and just once.
  pub conserved :
      (t : ℕ)
      → count t y.sem.waiting + count t (tickets y.sem.outcomes)
        ≡ (if ltb t y.sem.next_ticket then 1 else 0)
  pub latched : (t : ℕ) → y.sem.settled t ≡ ltb 0 (count t (tickets y.sem.outcomes))
  pub in_order : Rising 0 y.sem.next_ticket y.sem.waiting

unfoldable pub start : System
unfolding init
start = record { sem = init; grants = 0; releases = 0 }

start-Inv : (low high queue_high : ℕ) → Inv low high queue_high start
unfolding start
start-Inv low high queue_high = record {
  balance = refl;
  bounded = omega arith;
  full = inl refl;
  queue_bounded = omega arith;
  conserved = λ t. ground arith;
  latched = λ t. refl;
  in_order = omega arith;
}

tickets-append :
    (os : List Outcome) (o : Outcome) → tickets (os ++ o ∷ []) ≡ tickets os ++ ticket o ∷ []
tickets-append [] o = refl
tickets-append (p ∷ os) o = ground (arith, tickets-append os o)

-- A new outcome adds one to the count of its ticket.
count-settle :
    (t : ℕ) (os : List Outcome) (o : Outcome)
    → count t (tickets (os ++ o ∷ [])) ≡ count t (tickets os) + (if ticket o == t then 1 else 0)
count-settle t [] o = omega arith
count-settle t (p ∷ os) o = omega (arith, count-settle t os o)

woken_count-woken :
    (os : List Outcome) (t : ℕ) → woken_count (os ++ woken t ∷ []) ≡ woken_count os + 1
woken_count-woken [] t = omega arith
woken_count-woken (woken u ∷ os) t = omega (arith, woken_count-woken os t)
woken_count-woken (dropped u ∷ os) t = woken_count-woken os t

woken_count-dropped :
    (os : List Outcome) (t : ℕ) → woken_count (os ++ dropped t ∷ []) ≡ woken_count os
woken_count-dropped [] t = omega arith
woken_count-dropped (woken u ∷ os) t = omega (arith, woken_count-dropped os t)
woken_count-dropped (dropped u ∷ os) t = woken_count-dropped os t

count-remove :
    (j t : ℕ) (xs : List ℕ)
    → count j (remove t xs) ≡ (if j == t then count j xs - 1 else count j xs)
unfolding remove
count-remove j t [] = ground arith
count-remove j t (x ∷ xs) = ground (arith, count-remove j t xs)

length-remove : (t : ℕ) (xs : List ℕ) → length (remove t xs) ≤ length xs
unfolding remove
length-remove t [] = omega arith
length-remove t (x ∷ xs) = ground (arith, length-remove t xs)

Rising-mono : (lo lo' hi : ℕ) (xs : List ℕ) → lo' ≤ lo → Rising lo hi xs → Rising lo' hi xs
Rising-mono lo lo' hi [] h r = omega arith
Rising-mono lo lo' hi (x ∷ xs) h r = (omega arith, r.1)

Rising-remove : (t lo hi : ℕ) (xs : List ℕ) → Rising lo hi xs → Rising lo hi (remove t xs)
unfolding remove
Rising-remove t lo hi [] r = r
Rising-remove t lo hi (x ∷ xs) r =
    ground (arith, Rising-mono (suc x) lo hi xs, Rising-remove t (suc x) hi xs)

Rising-snoc : (lo hi : ℕ) (xs : List ℕ) → Rising lo hi xs → Rising lo (hi + 1) (xs ++ hi ∷ [])
Rising-snoc lo hi [] r = (r, omega arith)
Rising-snoc lo hi (x ∷ xs) r = (r.0, Rising-snoc (suc x) hi xs r.1)

module _ (low high queue_high : ℕ) (y : System) (v : Inv low high queue_high y) where
  -- The latch of the head of the queue.
  unsettled_head : (t : ℕ) (rest : List ℕ) → y.sem.waiting ≡ t ∷ rest → y.sem.settled t ≡ false
  unsettled_head t rest e = ground (arith, v.conserved t, v.latched t)

  acquire-Inv :
      (max max_queued : ℕ) (a : Bool)
      → low ≤ max
      → max ≤ high
      → max_queued ≤ queue_high
      → Inv low high queue_high (after_acquire y (acquire max max_queued a y.sem))
  unfolding acquire update
  acquire-Inv max max_queued a l h q = record {
    balance = ground (arith, v.balance);
    bounded = ground (arith, v.bounded, h);
    full = ground (arith, v.full, l);
    queue_bounded =
        ground (arith, v.queue_bounded, q, length-append y.sem.waiting (y.sem.next_ticket ∷ []));
    conserved =
        λ t. ground (arith, v.conserved t, count-append t y.sem.waiting (y.sem.next_ticket ∷ []));
    latched = λ t. ground (arith, v.latched t, v.conserved t);
    in_order = ground (arith, v.in_order, Rising-snoc 0 y.sem.next_ticket y.sem.waiting);
  }

  abort-Inv :
      (t : ℕ)
      → t < y.sem.next_ticket
      → Inv low high queue_high (record y { sem = on_abort t y.sem })
  unfolding on_abort update
  abort-Inv t h = record {
    balance = ground (arith, v.balance, woken_count-dropped y.sem.outcomes t);
    bounded = ground (arith, v.bounded);
    full = ground (arith, v.full);
    queue_bounded = ground (arith, v.queue_bounded, length-remove t y.sem.waiting);
    conserved = λ j. ground (
      arith,
      v.conserved j,
      v.conserved t,
      v.latched t,
      count-remove j t y.sem.waiting,
      count-settle j y.sem.outcomes (dropped t),
    );
    latched = λ j. ground (arith, v.latched j, count-settle j y.sem.outcomes (dropped t));
    in_order = ground (arith, v.in_order, Rising-remove t 0 y.sem.next_ticket y.sem.waiting);
  }

  -- What `release` does on each shape of the queue.
  pub release-empty :
      y.sem.waiting ≡ [] → release y.sem ≡ record y.sem { waiting = []; active = y.sem.active - 1 }
  unfolding release
  release-empty e = rw (e, release_from)

  pub release-head :
      (t : ℕ) (rest : List ℕ)
      → y.sem.waiting ≡ t ∷ rest
      → release y.sem ≡ record y.sem {
        waiting = rest;
        settled = update y.sem.settled t true;
        outcomes = y.sem.outcomes ++ woken t ∷ [];
      }
  unfolding release
  release-head t rest e = rw e (rw (unsettled_head t rest e))

  release_idle-Inv :
      y.sem.waiting ≡ []
      → y.releases < y.grants + woken_count y.sem.outcomes
      → Inv low high queue_high (record y { sem = release y.sem; releases = y.releases + 1 })
  release_idle-Inv e h = rw (release-empty e) (record {
    balance = omega (arith, v.balance);
    bounded = omega (arith, v.bounded);
    full = inl refl;
    queue_bounded = omega arith;
    conserved = λ j. ground (arith, v.conserved j);
    latched = v.latched;
    in_order = omega arith;
  })

  release_waiting-Inv :
      (t : ℕ) (rest : List ℕ)
      → y.sem.waiting ≡ t ∷ rest
      → Inv low high queue_high (record y { sem = release y.sem; releases = y.releases + 1 })
  unfolding update
  release_waiting-Inv t rest e = rw (release-head t rest e) (record {
    balance = omega (arith, v.balance, woken_count-woken y.sem.outcomes t);
    bounded = v.bounded;
    full = ground (arith, v.full);
    queue_bounded = ground (arith, v.queue_bounded);
    conserved =
        λ j. ground (arith, v.conserved j, v.conserved t, count-settle j y.sem.outcomes (woken t));
    latched = λ j. ground (arith, v.latched j, count-settle j y.sem.outcomes (woken t));
    in_order = ground (arith, v.in_order, Rising-mono (suc t) 0 y.sem.next_ticket rest);
  })

List-cases : (xs : List ℕ) → (xs ≡ []) ⊎ ((x : ℕ) × (rest : List ℕ) × (xs ≡ x ∷ rest))
List-cases [] = inl refl
List-cases (x ∷ xs) = inr (x, xs, refl)

step-Inv :
    (low high queue_high : ℕ) {y z : System}
    → Inv low high queue_high y
    → Step low high queue_high y z
    → Inv low high queue_high z
step-Inv low high queue_high v (acquires max max_queued a y l h q) =
    acquire-Inv low high queue_high y v max max_queued a l h q
step-Inv low high queue_high v (aborts t y h) = abort-Inv low high queue_high y v t h
step-Inv low high queue_high v (releases y h) = elim (List-cases y.sem.waiting) [
  | inl e ↦ release_idle-Inv low high queue_high y v e h
  | inr (t, rest, e) ↦ release_waiting-Inv low high queue_high y v t rest e
]

-- From the empty semaphore, whatever the order of the calls, the aborts and the releases, and with
-- limits that may change from call to call: the slots in use are those that callers hold and never
-- more than the highest limit `high` that a call may read, no slot below the lowest, `low`, is idle
-- while a call waits, the queue stays within the highest of its limits and in order of arrival, and
-- each call that was parked either stands in the queue once or was settled once, woken or dropped.
pub Reach-Inv :
    (low high queue_high : ℕ) {y : System}
    → Reach low high queue_high start y
    → Inv low high queue_high y
Reach-Inv low high queue_high here = start-Inv low high queue_high
Reach-Inv low high queue_high (next r st) =
    step-Inv low high queue_high (Reach-Inv low high queue_high r) st
