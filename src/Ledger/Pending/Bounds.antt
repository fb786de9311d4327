-- ===== src/Ledger/Pending/Bounds.antt =====
-- How many rows wait in the ledger of src/server/usage-ledger.ts.
use agy_proxy.Prelude.{
  ℕ, ◌≤◌, max, Bool, List, [], ◌∷◌, Option, Text, length, inl, inr, arith, length-append,
  length-drop,
}
use agy_proxy.Ledger.{
  UsageRecord, UsageLedger, new_ledger, flush, insert_params, record_usage, tokens_used_today,
  prune_older_than, close, timer_fires,
}
use agy_proxy.Ledger.Pending.{
  Op, perform, perform_all, flush-fits, Moves, flush-Moves, pushed_ledger, timer-Moves, Keeps→Moves,
  ask-Keeps, prune-Keeps, close-Moves, recorded, flushed, fired, asked, pruned, closed_down,
}

abbrev pub Bounded : UsageLedger → Type 0
Bounded l = length l.buffer ≤ max 499 l.max_pending_rows

Moves-Bounded : (l k : UsageLedger) → Moves l k → Bounded l → Bounded k
Moves-Bounded l k (m, inl (now, b, c)) h = rw (b, m) (ground arith)
Moves-Bounded l k (m, inr (n, b, c)) h = rw (b, m) (ground (arith, length-drop n l.buffer, h))

record-Bounded :
    (fresh : Text) (rec : UsageRecord) (ok : Bool) (now today : ℕ) (l : UsageLedger)
    → Bounded l
    → Bounded (record_usage fresh rec ok now today l)
unfolding record_usage
record-Bounded fresh rec ok now today l h =
    let pushed = pushed_ledger fresh rec today l in
    ground (
      arith,
      h,
      flush-fits ok now pushed,
      (flush-Moves ok now pushed).0,
      length-append l.buffer (insert_params fresh rec ∷ []),
    )

perform-Bounded : (op : Op) (l : UsageLedger) → Bounded l → Bounded (perform op l)
unfolding perform
perform-Bounded (recorded fresh rec ok now today) l h = record-Bounded fresh rec ok now today l h
perform-Bounded (flushed ok now) l h = Moves-Bounded l (flush ok now l) (flush-Moves ok now l) h
perform-Bounded (fired ok now) l h = Moves-Bounded l (timer_fires ok now l) (timer-Moves ok now l) h
perform-Bounded (asked key db_sum midnight) l h =
    let asked = (tokens_used_today key db_sum midnight l).1 in
    Moves-Bounded l asked (Keeps→Moves l asked (ask-Keeps key db_sum midnight l)) h
perform-Bounded (pruned days changes now) l h =
    let pruned = (prune_older_than days changes now l).1 in
    Moves-Bounded l pruned (Keeps→Moves l pruned (prune-Keeps days changes now l)) h
perform-Bounded (closed_down ok checkpoint_ok now) l h =
    Moves-Bounded l (close ok checkpoint_ok now l) (close-Moves ok checkpoint_ok now l) h

perform_all-Bounded : (ops : List Op) (l : UsageLedger) → Bounded l → Bounded (perform_all ops l)
unfolding perform_all
perform_all-Bounded [] l h = h
perform_all-Bounded (op ∷ ops) l h = perform_all-Bounded ops (perform op l) (perform-Bounded op l h)

-- However the transactions of a new ledger turn out, at most 499 rows wait, or as many as the cap
-- where that is more.
pub pending-Bounded :
    (ops : List Op) (flush_interval_ms max_pending_rows : Option ℕ)
    → Bounded (perform_all ops (new_ledger flush_interval_ms max_pending_rows))
unfolding new_ledger
pending-Bounded ops flush_interval_ms max_pending_rows =
    perform_all-Bounded ops (new_ledger flush_interval_ms max_pending_rows) (omega arith)
