-- ===== src/Events/Runs.antt =====
-- Sequences of calls on the bus of src/server/events.ts, with the list of all events that it ever
-- appended, and the ring against that list.
use agy_proxy.Prelude.{
  ℕ, ◌+◌, ◌≤◌, ◌<◌, ◌≡◌, refl, sym, ◌∙◌, ap, ◌⊎◌, inl, inr, Bool, true, false, ◌&&◌, List, [], ◌∷◌,
  ◌++◌, Option, none, some, arith, length, length-append, ltb, Bool-cases,
}
use mathlib.Core.List.{append_assoc}
use agy_proxy.Events.{
  AdminEvent, AdminEventBus, Body, RunEventPayload, natural, can_replay_from, after, trim, append,
  publish_run, publish_pool_now, publish_snapshot, init, debounce_fires, schedule_pool_change,
  subscribe, unsubscribe, register_client, unregister_client, sweep_stale_clients, close_all,
  initial_delivery, is_empty,
}
use agy_proxy.Events.Replay.{Recorded, Numbered-snoc, replay_complete, short_gap}

pub record World (P : Type 0) : Type 0 where
  pub history : List (AdminEvent P)
  pub bus : AdminEventBus P

module _ {P : Type 0} where
  abbrev pub publishes : World P → AdminEvent P × AdminEventBus P → World P
  publishes w (e, b) = record { history = w.history ++ e ∷ []; bus = b }

  abbrev pub maybe_publishes : World P → Option (AdminEvent P) × AdminEventBus P → World P
  maybe_publishes w (none, b) = record w { bus = b }
  maybe_publishes w (some e, b) = record { history = w.history ++ e ∷ []; bus = b }

  unfoldable pub start : Option ℕ → Option ℕ → World P
  unfolding init
  start capacity ttl = record { history = []; bus = init capacity ttl }

  pub data Step : World P → World P → Type 0 where
    run_settles :
        (now : ℕ) (r : RunEventPayload) (w : World P)
        → Step w (publishes w (publish_run now r w.bus))
    pool_published :
        (now : ℕ) (p : P) (w : World P) → Step w (publishes w (publish_pool_now now p w.bus))
    snapshot_sent :
        (now : ℕ) (p : P) (w : World P) → Step w (publishes w (publish_snapshot now p w.bus))
    timer_fires :
        (now : ℕ) (p : P) (w : World P) → Step w (maybe_publishes w (debounce_fires now p w.bus))
    pool_changes : (w : World P) → Step w (record w { bus = schedule_pool_change w.bus })
    subscribes : (w : World P) → Step w (record w { bus = (subscribe w.bus).1 })
    unsubscribes : (k : ℕ) (w : World P) → Step w (record w { bus = unsubscribe k w.bus })
    connects : (now : ℕ) (w : World P) → Step w (record w { bus = (register_client now w.bus).1 })
    disconnects : (k : ℕ) (w : World P) → Step w (record w { bus = unregister_client k w.bus })
    sweeps :
        (now : ℕ) (age : Option ℕ) (w : World P)
        → Step w (record w { bus = (sweep_stale_clients now age w.bus).1 })
    closes : (w : World P) → Step w (record w { bus = close_all w.bus })

  pub data Reach (w : World P) : World P → Type 0 where
    here : Reach w w
    next : {u v : World P} → Reach w u → Step u v → Reach w v

  abbrev IsRecorded : World P → Type 0
  IsRecorded w = Recorded w.history w.bus

  record Trimmed (capacity : ℕ) (xs out : List (AdminEvent P)) : Type 0 where
    gone : List (AdminEvent P)
    whole : xs ≡ gone ++ out
    fits : length out ≤ capacity
    tight : (length gone ≡ 0) ⊎ (length out ≡ capacity)

  nil_of_length : (xs : List (AdminEvent P)) → length xs ≡ 0 → xs ≡ []
  nil_of_length [] h = refl
  nil_of_length (x ∷ xs) h = absurd (omega arith)

  trim_over :
      (capacity : ℕ) (x : AdminEvent P) (xs out : List (AdminEvent P))
      → capacity < length (x ∷ xs)
      → Trimmed capacity xs out
      → Trimmed capacity (x ∷ xs) out
  trim_over capacity x xs out h t = record {
    gone = x ∷ t.gone;
    whole = ap (λ r. x ∷ r) t.whole;
    fits = t.fits;
    tight = inr (omega (arith, ap length t.whole, length-append t.gone out, t.tight));
  }

  trim_under :
      (capacity : ℕ) (x : AdminEvent P) (xs out : List (AdminEvent P))
      → length (x ∷ xs) ≤ capacity
      → Trimmed capacity xs out
      → Trimmed capacity (x ∷ xs) (x ∷ out)
  trim_under capacity x xs out h t = record {
    gone = [];
    whole = ap (λ r. x ∷ r) (t.whole ∙ ap (λ g. g ++ out) (nil_of_length t.gone none_gone));
    fits = omega (arith, ap length t.whole, length-append t.gone out);
    tight = inl refl;
  }
    where
      none_gone : length t.gone ≡ 0
      none_gone = omega (arith, ap length t.whole, length-append t.gone out, t.tight)

  trim-Trimmed : (capacity : ℕ) (xs : List (AdminEvent P)) → Trimmed capacity xs (trim capacity xs)
  unfolding trim
  trim-Trimmed capacity [] = record {
    gone = [];
    whole = refl;
    fits = omega arith;
    tight = inl refl;
  }
  trim-Trimmed capacity (x ∷ xs) = elim (Bool-cases (ltb capacity (length (x ∷ xs)))) [
    | inl over ↦ rw over (trim_over capacity x xs _ (ground arith) (trim-Trimmed capacity xs))
    | inr under ↦ rw under (trim_under capacity x xs _ (ground arith) (trim-Trimmed capacity xs))
  ]

  append-Recorded :
      (broadcast : Bool) (now : ℕ) (body : Body P) (w : World P)
      → IsRecorded w
      → IsRecorded (publishes w (append broadcast now body w.bus))
  unfolding append
  append-Recorded broadcast now body w v =
      let t = trim-Trimmed w.bus.capacity (w.bus.ring ++ e ∷ []) in
      record {
        lost = v.lost ++ t.gone;
        split =
            ap (λ h. h ++ e ∷ []) v.split
            ∙ append_assoc v.lost w.bus.ring (e ∷ [])
            ∙ ap (λ r. v.lost ++ r) t.whole
            ∙ sym (append_assoc v.lost t.gone _);
        numbered = Numbered-snoc 1 (w.bus.seq + 1) w.history e v.numbered refl;
        bounded = t.fits;
        kept = omega (
          arith,
          v.kept,
          t.tight,
          t.fits,
          ap length t.whole,
          length-append v.lost t.gone,
          length-append w.bus.ring (e ∷ []),
          length-append t.gone (trim w.bus.capacity (w.bus.ring ++ e ∷ [])),
        );
      }
    where
      e : AdminEvent P
      e = record { seq = w.bus.seq + 1; at = now; body = body }

  timer-Recorded :
      (now : ℕ) (p : P) (w : World P)
      → IsRecorded w
      → IsRecorded (maybe_publishes w (debounce_fires now p w.bus))
  unfolding debounce_fires
  timer-Recorded now p w v =
      elim (Bool-cases (is_empty w.bus.clients && is_empty w.bus.subscribers)) [
        | inl idle ↦ rw idle v'
        | inr busy ↦
            rw busy (append-Recorded true now (Body.pool p) (record w { bus = disarmed }) v')
      ]
    where
      disarmed : AdminEventBus P
      disarmed = record w.bus { debounce_armed = false }

      v' : Recorded w.history disarmed
      v' = record {
        lost = v.lost;
        split = v.split;
        numbered = v.numbered;
        bounded = v.bounded;
        kept = v.kept;
      }

  start-Recorded : (capacity ttl : Option ℕ) → IsRecorded (start capacity ttl)
  unfolding start init
  start-Recorded capacity ttl = record {
    lost = [];
    split = refl;
    numbered = omega arith;
    bounded = omega arith;
    kept = inl refl;
  }

  -- Steps that append nothing leave the ring alone.
  same-Recorded :
      (h : List (AdminEvent P)) (b c : AdminEventBus P)
      → c.ring ≡ b.ring
      → c.seq ≡ b.seq
      → c.capacity ≡ b.capacity
      → Recorded h b
      → Recorded h c
  same-Recorded h b c r q k v = record {
    lost = v.lost;
    split = rw r v.split;
    numbered = rw q v.numbered;
    bounded = rw (r, k) v.bounded;
    kept = rw (r, k) v.kept;
  }

  step-Recorded : {w u : World P} → IsRecorded w → Step w u → IsRecorded u
  unfolding publish_run publish_pool_now publish_snapshot schedule_pool_change subscribe unsubscribe
      register_client unregister_client sweep_stale_clients close_all
  step-Recorded v (run_settles now r w) = append-Recorded true now (Body.run r) w v
  step-Recorded v (pool_published now p w) = append-Recorded true now (Body.pool p) w v
  step-Recorded v (snapshot_sent now p w) = append-Recorded false now (Body.snapshot p) w v
  step-Recorded v (timer_fires now p w) = timer-Recorded now p w v
  step-Recorded v (pool_changes w) = same-Recorded _ w.bus _ refl refl refl v
  step-Recorded v (subscribes w) = same-Recorded _ w.bus _ refl refl refl v
  step-Recorded v (unsubscribes k w) = same-Recorded _ w.bus _ refl refl refl v
  step-Recorded v (connects now w) = same-Recorded _ w.bus _ refl refl refl v
  step-Recorded v (disconnects k w) = same-Recorded _ w.bus _ refl refl refl v
  step-Recorded v (sweeps now age w) = same-Recorded _ w.bus _ refl refl refl v
  step-Recorded v (closes w) = same-Recorded _ w.bus _ refl refl refl v

  pub Reach-Recorded :
      (capacity ttl : Option ℕ) {w : World P}
      → Reach (start capacity ttl) w
      → Recorded w.history w.bus
  Reach-Recorded capacity ttl here = start-Recorded capacity ttl
  Reach-Recorded capacity ttl (next r st) = step-Recorded (Reach-Recorded capacity ttl r) st

  -- A client that reconnects with Last-Event-ID `n` is served by a replay or a snapshot, never both:
  -- either it is sent exactly the events after `n` of all that were ever appended and the bus stays
  -- as it is, or it is sent one new snapshot alone.
  pub reconnect_exact :
      (capacity ttl : Option ℕ) {w : World P} (now n : ℕ) (p : P)
      → Reach (start capacity ttl) w
      → (((initial_delivery now p (some (natural n)) w.bus).0 ≡ after n w.history)
          × ((initial_delivery now p (some (natural n)) w.bus).1 ≡ w.bus))
        ⊎ ((initial_delivery now p (some (natural n)) w.bus).0
            ≡ record { seq = w.bus.seq + 1; at = now; body = Body.snapshot p } ∷ [])
  unfolding initial_delivery append
  reconnect_exact capacity ttl {w} now n p r =
      elim (Bool-cases (can_replay_from (natural n) w.bus)) [
        | inl e ↦
            inl (rw e (replay_complete w.history w.bus n (Reach-Recorded capacity ttl r) e), rw e)
        | inr e ↦ inr (rw e)
      ]

  -- A client that reconnects with the id of an event that was appended, 1 at least, and missed fewer
  -- events than the ring's capacity is served by a replay: it is sent exactly the events after its
  -- own.
  pub short_gap_replays :
      (capacity ttl : Option ℕ) {w : World P} (now n : ℕ) (p : P)
      → Reach (start capacity ttl) w
      → 1 ≤ n
      → n ≤ w.bus.seq
      → w.bus.seq < n + w.bus.capacity
      → (initial_delivery now p (some (natural n)) w.bus).0 ≡ after n w.history
  unfolding initial_delivery
  short_gap_replays capacity ttl {w} now n p r h l g =
      let v = Reach-Recorded capacity ttl r in
      let e = short_gap w.history w.bus n v h l g in rw e (replay_complete w.history w.bus n v e)
