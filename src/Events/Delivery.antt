-- ===== src/Events/Delivery.antt =====
-- What one subscriber of the bus of src/server/events.ts is given.
use agy_proxy.Prelude.{
  ℕ, ◌+◌, ◌≤◌, ◌<◌, ◌≡◌, refl, sym, ◌∙◌, ap, inl, inr, Bool, true, false, ◌&&◌, List, [], ◌∷◌, ◌++◌,
  map, Option, arith, ltb, ◌==◌, if◌then◌else◌, Bool-cases, count, count-append,
}
use mathlib.Core.List.{append-nil, append_assoc}
use agy_proxy.Events.{
  AdminEvent, AdminEventBus, Body, append, publish_run, publish_pool_now, publish_snapshot,
  debounce_fires, schedule_pool_change, subscribe, unsubscribe, register_client, unregister_client,
  sweep_stale_clients, close_all, is_empty, delete,
}
use agy_proxy.Events.Runs.{
  World, publishes, maybe_publishes, start, Step, run_settles, pool_published, snapshot_sent,
  timer_fires, pool_changes, subscribes, unsubscribes, connects, disconnects, sweeps, closes, Reach,
  here, next,
}

count-delete : (j k : ℕ) (xs : List ℕ) → count j (delete k xs) ≡ (if j == k then 0 else count j xs)
unfolding delete
count-delete j k [] = ground arith
count-delete j k (x ∷ xs) = ground (arith, count-delete j k xs)

module _ {P : Type 0} where
  -- What subscriber `k` was given, oldest first.
  abbrev pub received : ℕ → List (ℕ × AdminEvent P) → List (AdminEvent P)
  received k [] = []
  received k ((j, e) ∷ ds) = let rest = received k ds in if j == k then e ∷ rest else rest

  abbrev pub is_broadcast : Body P → Bool
  is_broadcast (Body.snapshot p) = false
  is_broadcast (Body.run r) = true
  is_broadcast (Body.pool p) = true

  -- The events that are fanned out: all but snapshots.
  abbrev pub broadcasts : List (AdminEvent P) → List (AdminEvent P)
  broadcasts [] = []
  broadcasts (e ∷ es) = let rest = broadcasts es in if is_broadcast e.body then e ∷ rest else rest

  received-append :
      (k : ℕ) (xs ys : List (ℕ × AdminEvent P))
      → received k (xs ++ ys) ≡ received k xs ++ received k ys
  received-append k [] ys = refl
  received-append k ((j, e) ∷ xs) ys = ground (arith, received-append k xs ys)

  broadcasts-append :
      (xs ys : List (AdminEvent P)) → broadcasts (xs ++ ys) ≡ broadcasts xs ++ broadcasts ys
  broadcasts-append [] ys = refl
  broadcasts-append (e ∷ xs) ys = ground (arith, broadcasts-append xs ys)

  received_none :
      (k : ℕ) (subs : List ℕ) (e : AdminEvent P)
      → count k subs ≡ 0
      → received k (map (λ s. (s, e)) subs) ≡ []
  received_none k [] e h = refl
  received_none k (s ∷ subs) e h = ground (arith, received_none k subs e)

  received_once :
      (k : ℕ) (subs : List ℕ) (e : AdminEvent P)
      → count k subs ≡ 1
      → received k (map (λ s. (s, e)) subs) ≡ e ∷ []
  received_once k [] e h = absurd (omega arith)
  received_once k (s ∷ subs) e h = ground (arith, received_once k subs e, received_none k subs e)

  -- Ids are fresh, so each stands for one subscription.
  abbrev Distinct : AdminEventBus P → Type 0
  Distinct b = (k : ℕ) → count k b.subscribers ≤ (if ltb k b.next_id then 1 else 0)

  step-Distinct : {w u : World P} → Distinct w.bus → Step w u → Distinct u.bus
  unfolding publish_run publish_pool_now publish_snapshot debounce_fires append schedule_pool_change
      subscribe unsubscribe register_client unregister_client sweep_stale_clients close_all
  step-Distinct d (run_settles now r w) k = d k
  step-Distinct d (pool_published now p w) k = d k
  step-Distinct d (snapshot_sent now p w) k = d k
  step-Distinct d (timer_fires now p w) k = ground (arith, d k)
  step-Distinct d (pool_changes w) k = d k
  step-Distinct d (subscribes w) k =
      ground (arith, d k, count-append k w.bus.subscribers (w.bus.next_id ∷ []))
  step-Distinct d (unsubscribes j w) k = ground (arith, d k, count-delete k j w.bus.subscribers)
  step-Distinct d (connects now w) k = ground (arith, d k)
  step-Distinct d (disconnects j w) k = d k
  step-Distinct d (sweeps now age w) k = d k
  step-Distinct d (closes w) k = ground arith

  -- One step, seen by a subscriber that is there before and after.
  record Sees (k : ℕ) (w u : World P) : Type 0 where
    extra : List (AdminEvent P)
    appended : u.history ≡ w.history ++ extra
    given : received k u.bus.delivered ≡ received k w.bus.delivered ++ broadcasts extra

  quiet-Sees :
      (k : ℕ) (w u : World P)
      → u.history ≡ w.history
      → u.bus.delivered ≡ w.bus.delivered
      → Sees k w u
  quiet-Sees k w u h d = record {
    extra = [];
    appended = h ∙ sym (append-nil w.history);
    given = ap (received k) d ∙ sym (append-nil _);
  }

  append-Sees :
      (k : ℕ) (broadcast : Bool) (now : ℕ) (body : Body P) (w : World P)
      → is_broadcast body ≡ broadcast
      → count k w.bus.subscribers ≡ 1
      → Sees k w (publishes w (append broadcast now body w.bus))
  unfolding append
  append-Sees k true now body w b c = record {
    extra = e ∷ [];
    appended = refl;
    given =
        received-append k w.bus.delivered (map (λ s. (s, e)) w.bus.subscribers)
        ∙ ap (λ r. received k w.bus.delivered ++ r) (received_once k w.bus.subscribers e c ∙ rw b);
  }
    where
      e : AdminEvent P
      e = record { seq = w.bus.seq + 1; at = now; body = body }
  append-Sees k false now body w b c = record {
    extra = record { seq = w.bus.seq + 1; at = now; body = body } ∷ [];
    appended = refl;
    given = rw b (sym (append-nil _));
  }

  timer-Sees :
      (k now : ℕ) (p : P) (w : World P)
      → count k w.bus.subscribers ≡ 1
      → Sees k w (maybe_publishes w (debounce_fires now p w.bus))
  unfolding debounce_fires
  timer-Sees k now p w c =
      elim (Bool-cases (is_empty w.bus.clients && is_empty w.bus.subscribers)) [
        | inl idle ↦ rw idle (quiet-Sees k w _ refl refl)
        | inr busy ↦
            let seen =
              append-Sees k true now (Body.pool p)
                (record w { bus = record w.bus { debounce_armed = false } }) refl c in
            rw busy (record { extra = seen.extra; appended = seen.appended; given = seen.given })
      ]

  step-Sees : {w u : World P} (k : ℕ) → count k w.bus.subscribers ≡ 1 → Step w u → Sees k w u
  unfolding publish_run publish_pool_now publish_snapshot schedule_pool_change subscribe unsubscribe
      register_client unregister_client sweep_stale_clients close_all
  step-Sees k c (run_settles now r w) = append-Sees k true now (Body.run r) w refl c
  step-Sees k c (pool_published now p w) = append-Sees k true now (Body.pool p) w refl c
  step-Sees k c (snapshot_sent now p w) = append-Sees k false now (Body.snapshot p) w refl c
  step-Sees k c (timer_fires now p w) = timer-Sees k now p w c
  step-Sees k c (pool_changes w) = quiet-Sees k w _ refl refl
  step-Sees k c (subscribes w) = quiet-Sees k w _ refl refl
  step-Sees k c (unsubscribes j w) = quiet-Sees k w _ refl refl
  step-Sees k c (connects now w) = quiet-Sees k w _ refl refl
  step-Sees k c (disconnects j w) = quiet-Sees k w _ refl refl
  step-Sees k c (sweeps now age w) = quiet-Sees k w _ refl refl
  step-Sees k c (closes w) = quiet-Sees k w _ refl refl

  -- An id that was given out before a step is not given out again: who is gone stays gone.
  step_gone :
      {w u : World P} (k : ℕ)
      → k < w.bus.next_id
      → Step w u
      → (count k u.bus.subscribers ≤ count k w.bus.subscribers) × (k < u.bus.next_id)
  unfolding publish_run publish_pool_now publish_snapshot debounce_fires append schedule_pool_change
      subscribe unsubscribe register_client unregister_client sweep_stale_clients close_all
  step_gone k h (run_settles now r w) = omega arith
  step_gone k h (pool_published now p w) = omega arith
  step_gone k h (snapshot_sent now p w) = omega arith
  step_gone k h (timer_fires now p w) = ground arith
  step_gone k h (pool_changes w) = omega arith
  step_gone k h (subscribes w) =
      ground (arith, count-append k w.bus.subscribers (w.bus.next_id ∷ []))
  step_gone k h (unsubscribes j w) = ground (arith, count-delete k j w.bus.subscribers)
  step_gone k h (connects now w) = omega arith
  step_gone k h (disconnects j w) = omega arith
  step_gone k h (sweeps now age w) = omega arith
  step_gone k h (closes w) = omega arith

  Reach-gone :
      {w u : World P} (k : ℕ)
      → k < w.bus.next_id
      → Reach w u
      → (count k u.bus.subscribers ≤ count k w.bus.subscribers) × (k < u.bus.next_id)
  Reach-gone k h here = omega arith
  Reach-gone k h (next r st) =
      let before = Reach-gone k h r in let after = step_gone k before.1 st in omega arith

  Reach-Distinct : {w u : World P} → Distinct w.bus → Reach w u → Distinct u.bus
  Reach-Distinct d here = d
  Reach-Distinct d (next r st) = step-Distinct (Reach-Distinct d r) st

  start-Distinct : (capacity ttl : Option ℕ) (w : World P) → w ≡ start capacity ttl → Distinct w.bus
  unfolding start
  start-Distinct capacity ttl w e k = rw e (ground arith)

  trans-Sees : (k : ℕ) (w u v : World P) → Sees k w u → Sees k u v → Sees k w v
  trans-Sees k w u v a b = record {
    extra = a.extra ++ b.extra;
    appended =
        b.appended ∙ ap (λ h. h ++ b.extra) a.appended ∙ append_assoc w.history a.extra b.extra;
    given =
        b.given
        ∙ ap (λ r. r ++ broadcasts b.extra) a.given
        ∙ append_assoc _ (broadcasts a.extra) (broadcasts b.extra)
        ∙ ap (λ r. received k w.bus.delivered ++ r) (sym (broadcasts-append a.extra b.extra));
  }

  Reach-Sees :
      {w u : World P} (k : ℕ)
      → Distinct w.bus
      → k < w.bus.next_id
      → count k w.bus.subscribers ≡ 1
      → Reach w u
      → count k u.bus.subscribers ≡ 1
      → Sees k w u
  Reach-Sees {w} k d h c here c' = quiet-Sees k w _ refl refl
  Reach-Sees {w} {u} k d h c (next {u = z} r st) c' =
      let g = Reach-gone k h r in
      let one : count k z.bus.subscribers ≡ 1 = omega (arith, step_gone k g.1 st) in
      trans-Sees k w z u (Reach-Sees k d h c r one) (step-Sees k one st)

  -- Between two moments at which `k` is subscribed, it is given exactly the runs and pool snapshots
  -- that were appended in between, each once and in their order, and none of the snapshots that
  -- other clients asked for.
  pub delivery_exact :
      (capacity ttl : Option ℕ) {w u : World P} (k : ℕ)
      → Reach (start capacity ttl) w
      → Reach w u
      → count k w.bus.subscribers ≡ 1
      → count k u.bus.subscribers ≡ 1
      → (extra : List (AdminEvent P)) × (u.history ≡ w.history ++ extra)
        × (received k u.bus.delivered ≡ received k w.bus.delivered ++ broadcasts extra)
  delivery_exact capacity ttl {w} k r q c c' =
      let d = Reach-Distinct (start-Distinct capacity ttl _ refl) r in
      let seen = Reach-Sees k d (ground (arith, d k)) c q c' in
      (seen.extra, seen.appended, seen.given)
