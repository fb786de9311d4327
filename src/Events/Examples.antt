-- ===== src/Events/Examples.antt =====
-- Runs of the event bus of src/server/events.ts, with a ring of two events.
use agy_proxy.Prelude.{
  ℕ, ◌≡◌, ◌⊎◌, ◌≤◌, ◌<◌, ◌+◌, refl, true, false, List, [], ◌∷◌, ◌++◌, none, some, arith, count, All,
  length,
}
use agy_proxy.Events.{
  AdminEvent, Client, Body, publish_pool_now, subscribe, natural, after, can_replay_from,
  initial_delivery, register_client, sweep_stale_clients, publish_snapshot, current_seq,
  subscriber_count,
}
use agy_proxy.Events.Runs.{
  World, start, Reach, here, next, pool_published, subscribes, snapshot_sent, connects, publishes,
  reconnect_exact, short_gap_replays,
}
use agy_proxy.Events.Delivery.{received, broadcasts, delivery_exact}
use agy_proxy.Events.Clients.{ids, ended_once, sweep_exact}

-- Pool snapshots are numbers here. One client is connected and subscribed.
abbrev fresh : World ℕ
fresh = start (some 2) none

abbrev listening : World ℕ
listening = record fresh { bus = (subscribe fresh.bus).1 }

abbrev one : World ℕ
one = publishes listening (publish_pool_now 5 10 listening.bus)

abbrev two : World ℕ
two = publishes one (publish_snapshot 6 11 one.bus)

abbrev three : World ℕ
three = publishes two (publish_pool_now 7 12 two.bus)

listening-Reach : Reach fresh listening
listening-Reach = next here (subscribes _)

later-Reach : Reach listening three
later-Reach =
    next (next (next here (pool_published 5 10 _)) (snapshot_sent 6 11 _)) (pool_published 7 12 _)

three-Reach : Reach fresh three
three-Reach =
    next (next (next listening-Reach (pool_published 5 10 _)) (snapshot_sent 6 11 _))
      (pool_published 7 12 _)

three_current : current_seq three.bus ≡ 3
unfolding current_seq publish_pool_now publish_snapshot subscribe start
three_current = refl

three_subscribers : subscriber_count three.bus ≡ 1
unfolding subscriber_count publish_pool_now publish_snapshot subscribe start
three_subscribers = refl

replays_two : can_replay_from (natural 2) three.bus ≡ true
unfolding can_replay_from publish_pool_now publish_snapshot subscribe start
replays_two = refl

refuses_one : can_replay_from (natural 1) three.bus ≡ false
unfolding can_replay_from publish_pool_now publish_snapshot subscribe start
refuses_one = refl

reconnect_exact_example :
    (((initial_delivery 9 12 (some (natural 2)) three.bus).0 ≡ after 2 three.history)
      × ((initial_delivery 9 12 (some (natural 2)) three.bus).1 ≡ three.bus))
    ⊎ ((initial_delivery 9 12 (some (natural 2)) three.bus).0
        ≡ record { seq = three.bus.seq + 1; at = 9; body = Body.snapshot 12 } ∷ [])
reconnect_exact_example = reconnect_exact (some 2) none 9 2 12 three-Reach

short_gap_replays_example :
    (initial_delivery 9 12 (some (natural 2)) three.bus).0 ≡ after 2 three.history
unfolding publish_pool_now publish_snapshot subscribe start
short_gap_replays_example =
    short_gap_replays (some 2) none 9 2 12 three-Reach (omega arith) (omega arith) (omega arith)

delivery_exact_example :
    (extra : List (AdminEvent ℕ)) × (three.history ≡ listening.history ++ extra)
    × (received 1 three.bus.delivered ≡ received 1 listening.bus.delivered ++ broadcasts extra)
unfolding publish_pool_now publish_snapshot subscribe start
delivery_exact_example = delivery_exact (some 2) none 1 listening-Reach later-Reach refl refl

abbrev connected : World ℕ
connected = record fresh { bus = (register_client 100 fresh.bus).1 }

ended_once_example :
    (count 1 connected.bus.ended ≤ 1)
    × (0 < count 1 (ids connected.bus.clients) → count 1 connected.bus.ended ≡ 0)
ended_once_example = ended_once (some 2) none 1 (next here (connects 100 _))

sweep_exact_example :
    ((before after : List Client) (c : Client)
      → connected.bus.clients ≡ before ++ c ∷ after
      → (200 < c.at + 50
          → 0 < count c.id (ids (sweep_stale_clients 200 (some 50) connected.bus).1.clients))
        × (c.at + 50 ≤ 200
            → count c.id connected.bus.ended
              < count c.id (sweep_stale_clients 200 (some 50) connected.bus).1.ended))
    × All (λ c. 200 < c.at + 50) (sweep_stale_clients 200 (some 50) connected.bus).1.clients
    × ((k : ℕ)
        → count k (ids (sweep_stale_clients 200 (some 50) connected.bus).1.clients)
            + count k (sweep_stale_clients 200 (some 50) connected.bus).1.ended
          ≡ count k (ids connected.bus.clients) + count k connected.bus.ended)
    × ((sweep_stale_clients 200 (some 50) connected.bus).0
          + length (sweep_stale_clients 200 (some 50) connected.bus).1.clients
        ≡ length connected.bus.clients)
sweep_exact_example = sweep_exact 200 50 connected.bus
