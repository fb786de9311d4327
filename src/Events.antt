-- ===== src/Events.antt =====
-- src/server/events.ts: the admin event bus.
--
-- `P` is the type of pool snapshots, which the bus only passes on; the pool at the time of a call
-- (`getPool()`) and the clock (`Date.now()`) are arguments. A subscriber is its id: what its
-- callback was given is an entry of `delivered`, and a stream-end callback that was invoked is an
-- entry of `ended`, both oldest first. A callback that throws changes nothing. What a callback does
-- in turn (the route unregisters itself) is a step of its own, `unsubscribe` or
-- `unregister_client`. Timers are flags: armed or not.
pub mod Replay
pub mod Runs
pub mod Delivery
pub mod Clients
pub mod Examples
use agy_proxy.Prelude.{
  ℕ, ◌+◌, ◌*◌, ◌≡◌, Bool, true, false, ◌&&◌, ◌||◌, List, [], ◌∷◌, ◌++◌, map, Option, none, some,
  String, length, ltb, leb, ◌==◌, if◌then◌else◌,
}

pub data Protocol : Type 0 where
  openai anthropic : Protocol

pub record RunUsage : Type 0 where
  pub prompt_tokens : ℕ
  pub completion_tokens : ℕ
  pub reasoning_tokens : Option ℕ
  pub cache_read_tokens : Option ℕ

pub record RunEventPayload : Type 0 where
  pub ok : Bool
  pub status : String
  pub duration_ms : ℕ
  pub model : String
  pub family : Option String
  pub conversation_id : Option String
  pub account_id : Option String
  pub key_id : Option String
  pub protocol : Protocol
  pub req_id : String
  pub usage : Option RunUsage

pub data Body (P : Type 0) : Type 0 where
  snapshot : P → Body P
  run : RunEventPayload → Body P
  pool : P → Body P

pub record AdminEvent (P : Type 0) : Type 0 where
  pub seq : ℕ
  pub at : ℕ
  pub body : Body P

pub record Client : Type 0 where
  pub id : ℕ
  pub at : ℕ

pub record AdminEventBus (P : Type 0) : Type 0 where
  pub capacity : ℕ
  pub client_ttl_ms : ℕ
  pub ring : List (AdminEvent P)
  pub subscribers : List ℕ
  pub clients : List Client
  pub seq : ℕ
  pub next_id : ℕ
  pub debounce_armed : Bool
  pub sweeper_armed : Bool
  pub delivered : List (ℕ × AdminEvent P)
  pub ended : List ℕ

-- What a Last-Event-ID can be: an integer from 0, or another number.
pub data EventId : Type 0 where
  natural : ℕ → EventId
  other : EventId

is_empty {ℓ} : {A : Type ℓ} → List A → Bool
is_empty [] = true
is_empty (x ∷ xs) = false

delete : ℕ → List ℕ → List ℕ
delete k [] = []
delete k (x ∷ xs) = let rest = delete k xs in if x == k then rest else x ∷ rest

delete_client : ℕ → List Client → List Client
delete_client k [] = []
delete_client k (c ∷ cs) = let rest = delete_client k cs in if c.id == k then rest else c ∷ rest

-- `client.at <= now - maxAgeMs`, written without the subtraction.
pub is_stale : ℕ → ℕ → Client → Bool
is_stale now max_age_ms c = leb (c.at + max_age_ms) now

pub fresh_clients : ℕ → ℕ → List Client → List Client
unfolding is_stale
fresh_clients now age [] = []
fresh_clients now age (c ∷ cs) =
    let rest = fresh_clients now age cs in if is_stale now age c then rest else c ∷ rest

pub stale_ids : ℕ → ℕ → List Client → List ℕ
unfolding is_stale
stale_ids now age [] = []
stale_ids now age (c ∷ cs) =
    let rest = stale_ids now age cs in if is_stale now age c then c.id ∷ rest else rest

module _ {P : Type 0} where
  -- The constructor; the defaults are a capacity of 200 and a client age of 24 hours.
  pub init : Option ℕ → Option ℕ → AdminEventBus P
  init capacity client_ttl_ms = record {
    capacity = elim capacity [ none ↦ 200 | some c ↦ c ];
    client_ttl_ms = elim client_ttl_ms [ none ↦ 24 * 3_600_000 | some t ↦ t ];
    ring = [];
    subscribers = [];
    clients = [];
    seq = 0;
    next_id = 1;
    debounce_armed = false;
    sweeper_armed = false;
    delivered = [];
    ended = [];
  }

  pub current_seq : AdminEventBus P → ℕ
  current_seq b = b.seq

  within : ℕ → ℕ → List (AdminEvent P) → Bool
  within n newest [] = false
  within n newest (oldest ∷ _) = leb oldest.seq n && ltb n newest

  pub can_replay_from : EventId → AdminEventBus P → Bool
  unfolding within
  can_replay_from other b = false
  can_replay_from (natural n) b =
      if ltb b.seq n then false else if n == b.seq then true else within n b.seq b.ring

  pub after : ℕ → List (AdminEvent P) → List (AdminEvent P)
  after n [] = []
  after n (e ∷ es) = let rest = after n es in if ltb n e.seq then e ∷ rest else rest

  pub replay_after : ℕ → AdminEventBus P → List (AdminEvent P)
  replay_after n b = after n b.ring

  -- `while (ring.length > capacity) ring.shift()`
  pub trim : ℕ → List (AdminEvent P) → List (AdminEvent P)
  trim capacity [] = []
  trim capacity (e ∷ es) =
      let rest = trim capacity es in if ltb capacity (length (e ∷ es)) then rest else e ∷ rest

  pub append : Bool → ℕ → Body P → AdminEventBus P → AdminEvent P × AdminEventBus P
  unfolding trim
  append broadcast at body b = (
    event,
    record b {
      ring = trim b.capacity (b.ring ++ event ∷ []);
      seq = b.seq + 1;
      delivered =
          if broadcast then b.delivered ++ map (λ s. (s, event)) b.subscribers else b.delivered;
    },
  )
    where
      event : AdminEvent P
      event = record { seq = b.seq + 1; at = at; body = body }

  pub publish_run : ℕ → RunEventPayload → AdminEventBus P → AdminEvent P × AdminEventBus P
  unfolding append
  publish_run now r b = append true now (run r) b

  pub publish_pool_now : ℕ → P → AdminEventBus P → AdminEvent P × AdminEventBus P
  unfolding append
  publish_pool_now now p b = append true now (pool p) b

  -- Recorded in the ring, and not fanned out.
  pub publish_snapshot : ℕ → P → AdminEventBus P → AdminEvent P × AdminEventBus P
  unfolding append
  publish_snapshot now p b = append false now (snapshot p) b

  pub schedule_pool_change : AdminEventBus P → AdminEventBus P
  schedule_pool_change b = record b { debounce_armed = true }

  -- The debounce timer fires: a snapshot of the pool, if anybody listens.
  pub debounce_fires : ℕ → P → AdminEventBus P → Option (AdminEvent P) × AdminEventBus P
  unfolding publish_pool_now is_empty
  debounce_fires now p b =
      let idle = record b { debounce_armed = false } in
      if is_empty b.clients && is_empty b.subscribers
      then (none, idle)
      else (some (publish_pool_now now p idle).0, (publish_pool_now now p idle).1)

  pub subscribe : AdminEventBus P → ℕ × AdminEventBus P
  subscribe b = (
    b.next_id,
    record b { subscribers = b.subscribers ++ b.next_id ∷ []; next_id = b.next_id + 1 },
  )

  pub unsubscribe : ℕ → AdminEventBus P → AdminEventBus P
  unfolding delete
  unsubscribe k b = record b { subscribers = delete k b.subscribers }

  pub register_client : ℕ → AdminEventBus P → ℕ × AdminEventBus P
  register_client now b = (
    b.next_id,
    record b {
      clients = b.clients ++ record { id = b.next_id; at = now } ∷ [];
      next_id = b.next_id + 1;
      sweeper_armed = true;
    },
  )

  pub unregister_client : ℕ → AdminEventBus P → AdminEventBus P
  unfolding delete_client
  unregister_client k b = record b { clients = delete_client k b.clients }

  -- The number of clients that were recycled, and the bus without them.
  pub sweep_stale_clients : ℕ → Option ℕ → AdminEventBus P → ℕ × AdminEventBus P
  unfolding fresh_clients stale_ids
  sweep_stale_clients now max_age b =
      let age : ℕ = elim max_age [ none ↦ b.client_ttl_ms | some a ↦ a ] in
      (
        length (stale_ids now age b.clients),
        record b {
          clients = fresh_clients now age b.clients;
          ended = b.ended ++ stale_ids now age b.clients;
        },
      )

  pub subscriber_count : AdminEventBus P → ℕ
  subscriber_count b = length b.subscribers

  pub close_all : AdminEventBus P → AdminEventBus P
  close_all b = record b {
    debounce_armed = false;
    sweeper_armed = false;
    clients = [];
    subscribers = [];
    ended = b.ended ++ map (λ c. c.id) b.clients;
  }

  -- The initial delivery of GET /admin/events (src/server/admin-api.ts): the events after
  -- Last-Event-ID, or one snapshot.
  pub initial_delivery :
      ℕ → P → Option EventId → AdminEventBus P → List (AdminEvent P) × AdminEventBus P
  unfolding can_replay_from replay_after publish_snapshot
  initial_delivery now p none b = ((publish_snapshot now p b).0 ∷ [], (publish_snapshot now p b).1)
  initial_delivery now p (some other) b =
      ((publish_snapshot now p b).0 ∷ [], (publish_snapshot now p b).1)
  initial_delivery now p (some (natural n)) b =
      if can_replay_from (natural n) b
      then (replay_after n b, b)
      else ((publish_snapshot now p b).0 ∷ [], (publish_snapshot now p b).1)
