-- ===== src/Semaphore.antt =====
-- src/server/semaphore.ts: the request-gateway semaphore.
--
-- A parked acquire is an object that the queue and its abort listener share. Its identity is a
-- ticket, given in order of arrival, and its `settled` latch is the store `settled`. A promise that
-- was resolved or rejected is an entry of `outcomes`, oldest first. The limits `max()` and
-- `maxQueued()`, which the constructor takes as functions and each call reads, are arguments of the
-- call, and may change from one call to the next.
pub mod Invariant
pub mod Fairness
pub mod Examples
use agy_proxy.Prelude.{
  ℕ, suc, ◌+◌, ◌-◌, ◌≤◌, ◌<◌, ◌≡◌, Bool, true, false, ◌||◌, List, [], ◌∷◌, ◌++◌, length, ltb, leb,
  ◌==◌, if◌then◌else◌,
}

-- What became of a parked acquire: `release` handed it a slot, or its signal aborted it.
pub data Outcome : Type 0 where
  woken dropped : ℕ → Outcome

pub record Semaphore : Type 0 where
  pub active : ℕ
  pub waiting : List ℕ
  pub settled : ℕ → Bool
  pub next_ticket : ℕ
  pub outcomes : List Outcome

pub data Acquired : Type 0 where
  granted : Acquired
  parked : ℕ → Acquired
  aborted busy : Acquired

pub init : Semaphore
init = record { active = 0; waiting = []; settled = λ _. false; next_ticket = 0; outcomes = [] }

pub update : (ℕ → Bool) → ℕ → Bool → ℕ → Bool
update f k v j = if j == k then v else f j

-- A fresh waiter, unsettled, at the end of the queue.
park : Semaphore → Acquired × Semaphore
park s = (
  parked s.next_ticket,
  record s {
    waiting = s.waiting ++ s.next_ticket ∷ [];
    settled = update s.settled s.next_ticket false;
    next_ticket = s.next_ticket + 1;
  },
)

-- `aborting` is `signal?.aborted ?? false`. The fast path does not read it.
pub acquire : ℕ → ℕ → Bool → Semaphore → Acquired × Semaphore
unfolding park
acquire max max_queued aborting s =
    if leb max s.active || ltb 0 (length s.waiting)
    then if aborting
      then (aborted, s)
      else if leb max_queued (length s.waiting)
      then (busy, s)
      else park s
    else (granted, record s { active = s.active + 1 })

-- `splice(indexOf(w), 1)`, which does nothing where the waiter is not queued.
pub remove : ℕ → List ℕ → List ℕ
remove t [] = []
remove t (x ∷ xs) = if x == t then xs else x ∷ remove t xs

-- The abort listener of the waiter `t`.
pub on_abort : ℕ → Semaphore → Semaphore
unfolding update remove
on_abort t s = if s.settled t then s else record s {
  settled = update s.settled t true;
  waiting = remove t s.waiting;
  outcomes = s.outcomes ++ dropped t ∷ [];
}

-- The loop of `release` over the queue. Subtraction stops at 0 here; a step of `Semaphore.Invariant`
-- releases only for a holder of a slot.
pub release_from : List ℕ → Semaphore → Semaphore
release_from [] s = record s { waiting = []; active = s.active - 1 }
release_from (t ∷ rest) s =
    let skip = release_from rest s in
    if s.settled t then skip else record s {
      waiting = rest;
      settled = update s.settled t true;
      outcomes = s.outcomes ++ woken t ∷ [];
    }

pub release : Semaphore → Semaphore
unfolding release_from
release s = release_from s.waiting s

-- `get depth()` and `get inFlight()`.
pub depth : Semaphore → ℕ
depth s = length s.waiting

pub in_flight : Semaphore → ℕ
in_flight s = s.active
