-- ===== src/Ledger/Examples.antt =====
-- A ledger of src/server/usage-ledger.ts that fails to write, and a day total.
use agy_proxy.Prelude.{true, false, List, [], ◌∷◌, some, none, codes, eq_text, ◌≡◌, refl}
use agy_proxy.Ledger.{
  UsageRecord, UsageLedger, openai, new_ledger, same_key, lookup_day, record_usage,
  tokens_used_today,
}
use agy_proxy.Ledger.Pending.{Op, recorded, flushed, closed_down, perform_all}
use agy_proxy.Ledger.Pending.Bounds.{Bounded, pending-Bounded}
use agy_proxy.Ledger.Pending.Order.{accepted_by, InOrder, rows-InOrder}
use agy_proxy.Ledger.Daily.{day_total_advances}

abbrev row : UsageRecord
row = record {
  request_id = codes "r1";
  key_id = some (codes "k");
  account_id = none;
  model = codes "m";
  family = codes "gemini";
  protocol = openai;
  prompt_tokens = 3;
  completion_tokens = 4;
  reasoning_tokens = none;
  cache_read_tokens = none;
  status = codes "OK";
  duration_ms = none;
  error_text = none;
}

-- The first flush fails, the second row arrives, the close commits both.
abbrev ops : List Op
ops =
    recorded (codes "u1") row true 70000 0
    ∷ flushed false 70000
    ∷ recorded (codes "u2") row true 70001 0
    ∷ closed_down true true 70002
    ∷ []

pending-Bounded_example : Bounded (perform_all ops (new_ledger none (some 1)))
pending-Bounded_example = pending-Bounded ops none (some 1)

rows-InOrder_example :
    InOrder
      (accepted_by ops (new_ledger none (some 1)))
      (perform_all ops (new_ledger none (some 1)))
rows-InOrder_example = rows-InOrder ops none (some 1)

abbrev seeded : UsageLedger
seeded = record (new_ledger none none) {
  tokens_today_cache = (codes "k", record { day = 0; total = 10 }) ∷ [];
}

seeded_total :
    lookup_day (codes "k") seeded.tokens_today_cache ≡ some (record { day = 0; total = 10 })
unfolding lookup_day eq_text new_ledger
seeded_total = refl

seeded_open : seeded.closed ≡ false
unfolding new_ledger
seeded_open = refl

day_total_advances_example :
    (tokens_used_today (codes "k") 0 0 (record_usage (codes "u1") row true 70000 0 seeded)).0 ≡ 17
unfolding same_key eq_text
day_total_advances_example =
    day_total_advances (codes "k") (codes "u1") row true 70000 0 10 0 seeded seeded_open
      seeded_total
