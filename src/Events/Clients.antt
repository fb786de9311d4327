-- ===== src/Events/Clients.antt =====
-- The registered streams of src/server/events.ts: who is ended, and how often.
use agy_proxy.Prelude.{
  ℕ, ◌+◌, ◌≤◌, ◌<◌, ◌≡◌, refl, List, [], ◌∷◌, ◌++◌, map, Option, none, some, arith, length, ltb,
  ◌==◌, if◌then◌else◌, count, count-append, All,
}
use agy_proxy.Events.{
  AdminEventBus, Client, append, publish_run, publish_pool_now, publish_snapshot, debounce_fires,
  schedule_pool_change, subscribe, unsubscribe, register_client, unregister_client,
  sweep_stale_clients, close_all, delete_client, fresh_clients, stale_ids,
}
use agy_proxy.Events.Runs.{
  World, start, Step, run_settles, pool_published, snapshot_sent, timer_fires, pool_changes,
  subscribes, unsubscribes, connects, disconnects, sweeps, closes, Reach, here, next,
}

abbrev pub ids : List Client → List ℕ
ids = map (λ c. c.id)

count-ids-delete :
    (j k : ℕ) (cs : List Client) → count j (ids (delete_client k cs)) ≤ count j (ids cs)
unfolding delete_client
count-ids-delete j k [] = omega arith
count-ids-delete j k (c ∷ cs) = ground (arith, count-ids-delete j k cs)

count-ids-append :
    (j : ℕ) (cs : List Client) (c : Client)
    → count j (ids (cs ++ c ∷ [])) ≡ count j (ids cs) + (if c.id == j then 1 else 0)
count-ids-append j [] c = omega arith
count-ids-append j (d ∷ cs) c = omega (arith, count-ids-append j cs c)

-- A sweep parts the clients in two: each is kept or ended.
sweep_parts :
    (j now age : ℕ) (cs : List Client)
    → count j (ids (fresh_clients now age cs)) + count j (stale_ids now age cs) ≡ count j (ids cs)
unfolding fresh_clients stale_ids
sweep_parts j now age [] = omega arith
sweep_parts j now age (c ∷ cs) = ground (arith, sweep_parts j now age cs)

fresh_clients-All :
    (now age : ℕ) (cs : List Client) → All (λ c. now < c.at + age) (fresh_clients now age cs)
unfolding fresh_clients
fresh_clients-All now age [] = tt
fresh_clients-All now age (c ∷ cs) = ground (arith, fresh_clients-All now age cs)

sweep_lengths :
    (now age : ℕ) (cs : List Client)
    → length (stale_ids now age cs) + length (fresh_clients now age cs) ≡ length cs
unfolding fresh_clients stale_ids
sweep_lengths now age [] = omega arith
sweep_lengths now age (c ∷ cs) = ground (arith, sweep_lengths now age cs)

-- A young client is kept wherever it stands, and an old one ended.
fresh_kept :
    (now age : ℕ) (before after : List Client) (c : Client)
    → now < c.at + age
    → 0 < count c.id (ids (fresh_clients now age (before ++ c ∷ after)))
unfolding fresh_clients
fresh_kept now age [] after c h = ground (arith, h)
fresh_kept now age (d ∷ before) after c h = ground (arith, fresh_kept now age before after c h)

stale_ended :
    (now age : ℕ) (before after : List Client) (c : Client)
    → c.at + age ≤ now
    → 0 < count c.id (stale_ids now age (before ++ c ∷ after))
unfolding stale_ids
stale_ended now age [] after c h = ground (arith, h)
stale_ended now age (d ∷ before) after c h = ground (arith, stale_ended now age before after c h)

module _ {P : Type 0} where
  abbrev Once : AdminEventBus P → Type 0
  Once b = (k : ℕ) → count k (ids b.clients) + count k b.ended ≤ (if ltb k b.next_id then 1 else 0)

  step-Once : {w u : World P} → Once w.bus → Step w u → Once u.bus
  unfolding publish_run publish_pool_now publish_snapshot debounce_fires append schedule_pool_change
      subscribe unsubscribe register_client unregister_client sweep_stale_clients close_all
  step-Once d (run_settles now r w) k = d k
  step-Once d (pool_published now p w) k = d k
  step-Once d (snapshot_sent now p w) k = d k
  step-Once d (timer_fires now p w) k = ground (arith, d k)
  step-Once d (pool_changes w) k = d k
  step-Once d (subscribes w) k = ground (arith, d k)
  step-Once d (unsubscribes j w) k = d k
  step-Once d (connects now w) k =
      ground
        (arith, d k, count-ids-append k w.bus.clients (record { id = w.bus.next_id; at = now }))
  step-Once d (disconnects j w) k = ground (arith, d k, count-ids-delete k j w.bus.clients)
  step-Once d (sweeps now none w) k = ground (
    arith,
    d k,
    sweep_parts k now w.bus.client_ttl_ms w.bus.clients,
    count-append k w.bus.ended (stale_ids now w.bus.client_ttl_ms w.bus.clients),
  )
  step-Once d (sweeps now (some age) w) k = ground (
    arith,
    d k,
    sweep_parts k now age w.bus.clients,
    count-append k w.bus.ended (stale_ids now age w.bus.clients),
  )
  step-Once d (closes w) k = ground (arith, d k, count-append k w.bus.ended (ids w.bus.clients))

  Reach-Once : {w u : World P} → Once w.bus → Reach w u → Once u.bus
  Reach-Once d here = d
  Reach-Once d (next r st) = step-Once (Reach-Once d r) st

  start-Once : (capacity ttl : Option ℕ) (w : World P) → w ≡ start capacity ttl → Once w.bus
  unfolding start
  start-Once capacity ttl w e k = rw e (ground arith)

  -- However the calls interleave, the stream-end callback of a connection is invoked at most once,
  -- and of one that is still registered it was never invoked.
  pub ended_once :
      (capacity ttl : Option ℕ) {w : World P} (k : ℕ)
      → Reach (start capacity ttl) w
      → (count k w.bus.ended ≤ 1) × (0 < count k (ids w.bus.clients) → count k w.bus.ended ≡ 0)
  ended_once capacity ttl {w} k r =
      let d = Reach-Once (start-Once capacity ttl _ refl) r in
      (ground (arith, d k), λ h. ground (arith, d k))

  -- A sweep keeps each client that is younger than `age` and ends each of the others, wherever they
  -- stand, keeps no other, parts the registered ones in those that it keeps and those that it ends,
  -- and returns how many it ended.
  pub sweep_exact :
      (now age : ℕ) (b : AdminEventBus P)
      → ((before after : List Client) (c : Client)
          → b.clients ≡ before ++ c ∷ after
          → (now < c.at + age
              → 0 < count c.id (ids (sweep_stale_clients now (some age) b).1.clients))
            × (c.at + age ≤ now
                → count c.id b.ended < count c.id (sweep_stale_clients now (some age) b).1.ended))
        × All (λ c. now < c.at + age) (sweep_stale_clients now (some age) b).1.clients
        × ((k : ℕ)
            → count k (ids (sweep_stale_clients now (some age) b).1.clients)
                + count k (sweep_stale_clients now (some age) b).1.ended
              ≡ count k (ids b.clients) + count k b.ended)
        × ((sweep_stale_clients now (some age) b).0
              + length (sweep_stale_clients now (some age) b).1.clients
            ≡ length b.clients)
  unfolding sweep_stale_clients
  sweep_exact now age b = (
    (λ before after c e. rw e (
      (λ h. fresh_kept now age before after c h),
      (λ h. omega (
        arith,
        stale_ended now age before after c h,
        count-append c.id b.ended (stale_ids now age (before ++ c ∷ after)),
      )),
    )),
    fresh_clients-All now age b.clients,
    (λ k. omega (
      arith,
      sweep_parts k now age b.clients,
      count-append k b.ended (stale_ids now age b.clients),
    )),
    sweep_lengths now age b.clients,
  )
