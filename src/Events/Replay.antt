-- ===== src/Events/Replay.antt =====
-- Reconnects of src/server/events.ts: what the ring still holds, and what a replay answers.
use agy_proxy.Prelude.{
  ℕ, ◌+◌, ◌≤◌, ◌<◌, ◌≡◌, refl, sym, ◌∙◌, ap, ◌⊎◌, inl, inr, true, List, [], ◌∷◌, ◌++◌, arith,
  length, ◌==◌, Bool-cases,
}
use mathlib.Core.List.{append-nil}
use agy_proxy.Events.{
  AdminEvent, AdminEventBus, natural, can_replay_from, within, replay_after, after,
}

module _ {P : Type 0} where
  -- Consecutive numbers from `lo`, up to `hi` and without it.
  abbrev pub Numbered : ℕ → ℕ → List (AdminEvent P) → Type 0
  Numbered lo hi [] = lo ≡ hi
  Numbered lo hi (e ∷ es) = (e.seq ≡ lo) × Numbered (lo + 1) hi es

  -- `history` is every event that the bus ever appended; the ring holds its end, and is only short
  -- while nothing was lost.
  pub record Recorded (history : List (AdminEvent P)) (b : AdminEventBus P) : Type 0 where
    pub lost : List (AdminEvent P)
    pub split : history ≡ lost ++ b.ring
    pub numbered : Numbered 1 (b.seq + 1) history
    pub bounded : length b.ring ≤ b.capacity
    pub kept : (length lost ≡ 0) ⊎ (length b.ring ≡ b.capacity)

  Numbered-le : (lo hi : ℕ) (es : List (AdminEvent P)) → Numbered lo hi es → lo ≤ hi
  Numbered-le lo hi [] h = omega arith
  Numbered-le lo hi (e ∷ es) h = omega (arith, Numbered-le (lo + 1) hi es h.1)

  pub Numbered-snoc :
      (lo hi : ℕ) (es : List (AdminEvent P)) (e : AdminEvent P)
      → Numbered lo hi es
      → e.seq ≡ hi
      → Numbered lo (hi + 1) (es ++ e ∷ [])
  Numbered-snoc lo hi [] e h q = (omega arith, omega arith)
  Numbered-snoc lo hi (x ∷ es) e h q = (h.0, Numbered-snoc (lo + 1) hi es e h.1 q)

  after-append :
      (n : ℕ) (xs ys : List (AdminEvent P)) → after n (xs ++ ys) ≡ after n xs ++ after n ys
  unfolding after
  after-append n [] ys = refl
  after-append n (x ∷ xs) ys = ground (arith, after-append n xs ys)

  -- Nothing that is numbered below `hi` lies after `n`, if `hi` is at most `n + 1`.
  after-old :
      (n lo hi : ℕ) (es : List (AdminEvent P)) → Numbered lo hi es → hi ≤ n + 1 → after n es ≡ []
  unfolding after
  after-old n lo hi [] h q = refl
  after-old n lo hi (e ∷ es) h q =
      ground (arith, after-old n (lo + 1) hi es, Numbered-le (lo + 1) hi es h.1)

  -- Where the list splits, its first part ends where the second begins.
  Numbered-split :
      (lo hi : ℕ) (xs : List (AdminEvent P)) (y : AdminEvent P) (ys : List (AdminEvent P))
      → Numbered lo hi (xs ++ y ∷ ys)
      → Numbered lo y.seq xs × Numbered y.seq hi (y ∷ ys)
  Numbered-split lo hi [] y ys h = (sym h.0, (refl, ground (arith, h.1)))
  Numbered-split lo hi (x ∷ xs) y ys h =
      let rest = Numbered-split (lo + 1) hi xs y ys h.1 in ((h.0, rest.0), rest.1)

  after-lost :
      (n newest : ℕ) (lost ring : List (AdminEvent P))
      → Numbered 1 (newest + 1) (lost ++ ring)
      → within n newest ring ≡ true
      → after n (lost ++ ring) ≡ after n ring
  unfolding within
  after-lost n newest lost [] num w = cc
  after-lost n newest lost (r ∷ ring) num w =
      let parts = Numbered-split 1 (newest + 1) lost r ring num in
      after-append n lost (r ∷ ring)
      ∙ ap (λ xs. xs ++ after n (r ∷ ring)) (after-old n 1 r.seq lost parts.0 (ground arith))

  append-eq-nil : (xs ys : List (AdminEvent P)) → xs ++ ys ≡ [] → ys ≡ []
  append-eq-nil [] ys h = h
  append-eq-nil (x ∷ xs) ys h = cc

  replay_newest :
      (lost ring : List (AdminEvent P)) (n : ℕ)
      → Numbered 1 (n + 1) (lost ++ ring)
      → after n ring ≡ after n (lost ++ ring)
  replay_newest lost ring n num =
      let all_old = after-old n 1 (n + 1) (lost ++ ring) num (omega arith) in
      append-eq-nil (after n lost) (after n ring) (sym (after-append n lost ring) ∙ all_old)
      ∙ sym all_old

  -- A replay that the bus agrees to is complete: it gives exactly the events after `n` of all that
  -- were ever appended, in order.
  pub replay_complete :
      (history : List (AdminEvent P)) (b : AdminEventBus P) (n : ℕ)
      → Recorded history b
      → can_replay_from (natural n) b ≡ true
      → replay_after n b ≡ after n history
  unfolding can_replay_from replay_after
  replay_complete history b n v h = elim (Bool-cases (n == b.seq)) [
    | inl e ↦
        let same : b.seq ≡ n = ground arith in
        rw v.split (replay_newest v.lost b.ring n (rw (← same, ← v.split) v.numbered))
    | inr e ↦
        rw v.split
          (sym (after-lost n b.seq v.lost b.ring (rw (← v.split) v.numbered) (ground arith)))
  ]

  Numbered-length : (lo hi : ℕ) (es : List (AdminEvent P)) → Numbered lo hi es → lo + length es ≡ hi
  Numbered-length lo hi [] h = omega arith
  Numbered-length lo hi (e ∷ es) h = omega (arith, Numbered-length (lo + 1) hi es h.1)

  oldest-le :
      (n newest capacity : ℕ) (lost : List (AdminEvent P)) (r : AdminEvent P)
      (ring : List (AdminEvent P))
      → Numbered 1 (newest + 1) (lost ++ r ∷ ring)
      → (length lost ≡ 0) ⊎ (length (r ∷ ring) ≡ capacity)
      → 1 ≤ n
      → newest < n + capacity
      → r.seq ≤ n
  oldest-le n newest capacity lost r ring num k h g =
      let parts = Numbered-split 1 (newest + 1) lost r ring num in
      omega (
        arith,
        Numbered-length 1 r.seq lost parts.0,
        Numbered-length r.seq (newest + 1) (r ∷ ring) parts.1,
      )

  within_gap :
      (n newest capacity : ℕ) (lost ring : List (AdminEvent P))
      → Numbered 1 (newest + 1) (lost ++ ring)
      → (length lost ≡ 0) ⊎ (length ring ≡ capacity)
      → 1 ≤ n
      → newest < n + capacity
      → n < newest
      → within n newest ring ≡ true
  unfolding within
  within_gap n newest capacity lost [] num k h g l =
      ground (arith, Numbered-length 1 (newest + 1) (lost ++ []) num, append-nil lost)
  within_gap n newest capacity lost (r ∷ ring) num k h g l =
      ground (arith, oldest-le n newest capacity lost r ring num k h g)

  pub short_gap :
      (history : List (AdminEvent P)) (b : AdminEventBus P) (n : ℕ)
      → Recorded history b
      → 1 ≤ n
      → n ≤ b.seq
      → b.seq < n + b.capacity
      → can_replay_from (natural n) b ≡ true
  unfolding can_replay_from
  short_gap history b n v h l g =
      ground
        (arith, within_gap n b.seq b.capacity v.lost b.ring (rw (← v.split) v.numbered) v.kept h g)
