-- ===== src/Ledger/Pending.antt =====
-- The rows of src/server/usage-ledger.ts that wait for the database: how each operation moves them.
pub mod Bounds
pub mod Order
use agy_proxy.Prelude.{
  ℕ, zero, suc, ◌+◌, ◌-◌, ◌≤◌, max, Bool, true, false, List, [], ◌∷◌, ◌++◌, Option, Text, length,
  take, drop, leb, ◌==◌, ◌||◌, if◌then◌else◌, ◌≡◌, ◌⊎◌, refl, sym, ap, ◌∙◌, subst, inl, inr,
  Bool-cases, arith, length-append, length-drop,
}
use mathlib.Core.List.{append-nil, append_assoc}
use agy_proxy.Ledger.{
  advance_cache, UsageRecord, InsertParams, UsageLedger, new_ledger, warn_throttled, stamp, newest,
  flush, insert_params, record_usage, tokens_used_today, prune_older_than, close_buffer, close,
  timer_fires,
}

-- What happens to a ledger.
pub data Op : Type 0 where
  recorded : Text → UsageRecord → Bool → ℕ → ℕ → Op
  flushed : Bool → ℕ → Op
  fired : Bool → ℕ → Op
  asked : Text → ℕ → ℕ → Op
  pruned : ℕ → Option ℕ → ℕ → Op
  closed_down : Bool → Bool → ℕ → Op

unfoldable pub perform : Op → UsageLedger → UsageLedger
perform (recorded fresh rec ok now today) l = record_usage fresh rec ok now today l
perform (flushed ok now) l = flush ok now l
perform (fired ok now) l = timer_fires ok now l
perform (asked key db_sum midnight) l = (tokens_used_today key db_sum midnight l).1
perform (pruned days changes now) l = (prune_older_than days changes now l).1
perform (closed_down ok checkpoint_ok now) l = close ok checkpoint_ok now l

unfoldable pub perform_all : List Op → UsageLedger → UsageLedger
unfolding perform
perform_all [] l = l
perform_all (op ∷ ops) l = perform_all ops (perform op l)

warn-keeps :
    (now : ℕ) (l : UsageLedger)
    → ((warn_throttled now l).buffer ≡ l.buffer)
      × ((warn_throttled now l).max_pending_rows ≡ l.max_pending_rows)
      × ((warn_throttled now l).committed ≡ l.committed)
      × ((warn_throttled now l).closed ≡ l.closed)
unfolding warn_throttled
warn-keeps now l = ground arith

-- A flush of an open ledger leaves at most the cap; one of a closed ledger does nothing.
flush-fits :
    (ok : Bool) (now : ℕ) (l : UsageLedger)
    → l.closed ≡ false
    → length (flush ok now l).buffer ≤ l.max_pending_rows
unfolding flush newest
flush-fits ok now l f =
    let cut = record l { buffer = drop (length l.buffer - l.max_pending_rows) l.buffer } in
    ground
      (arith, f, warn-keeps now cut, length-drop (length l.buffer - l.max_pending_rows) l.buffer)

-- A flush commits the buffer, or leaves an end of it.
abbrev Moves : UsageLedger → UsageLedger → Type 0
Moves l k =
    (k.max_pending_rows ≡ l.max_pending_rows)
    × (((now : ℕ) × (k.buffer ≡ []) × (k.committed ≡ l.committed ++ stamp now l.buffer))
        ⊎ ((n : ℕ) × (k.buffer ≡ drop n l.buffer) × (k.committed ≡ l.committed)))

flush-Moves : (ok : Bool) (now : ℕ) (l : UsageLedger) → Moves l (flush ok now l)
unfolding flush newest
flush-Moves ok now l = elim (Bool-cases (l.closed || length l.buffer == 0)) [
  | inl e ↦ rw e (refl, inr (0, refl, refl))
  | inr e ↦ elim (Bool-cases ok) [
    | inl o ↦ rw (e, o) (refl, inl (now, refl, refl))
    | inr o ↦
        let cut = record l { buffer = drop (length l.buffer - l.max_pending_rows) l.buffer } in
        let kept = warn-keeps now cut in
        rw (e, o) (kept.1, inr (length l.buffer - l.max_pending_rows, kept.0, kept.2))
  ]
]

drop_all : (rows : List InsertParams) → drop (length rows) rows ≡ []
drop_all [] = refl
drop_all (r ∷ rows) = drop_all rows

close_buffer-Moves : (ok : Bool) (now : ℕ) (l : UsageLedger) → Moves l (close_buffer ok now l)
unfolding close_buffer
close_buffer-Moves ok now l = elim (Bool-cases (length l.buffer == 0)) [
  | inl e ↦ rw e (refl, inr (0, refl, refl))
  | inr e ↦ elim (Bool-cases ok) [
    | inl o ↦ rw (e, o) (refl, inl (now, refl, refl))
    | inr o ↦
        let kept = warn-keeps now (record l { buffer = [] }) in
        rw (e, o) (kept.1, inr (length l.buffer, kept.0 ∙ sym (drop_all l.buffer), kept.2))
  ]
]

abbrev pushed_ledger : Text → UsageRecord → ℕ → UsageLedger → UsageLedger
pushed_ledger fresh rec today l = record l {
  buffer = l.buffer ++ (insert_params fresh rec ∷ []);
  tokens_today_cache = advance_cache today rec l.tokens_today_cache;
}

timer-Moves : (ok : Bool) (now : ℕ) (l : UsageLedger) → Moves l (timer_fires ok now l)
unfolding timer_fires
timer-Moves ok now l =
    let unarmed = record l { timer_armed = false } in
    let moved = flush-Moves ok now unarmed in
    elim (Bool-cases (flush ok now unarmed).closed) [ inl e ↦ rw e moved | inr e ↦ rw e moved ]

abbrev Keeps : UsageLedger → UsageLedger → Type 0
Keeps l k =
    (k.max_pending_rows ≡ l.max_pending_rows) × (k.buffer ≡ l.buffer) × (k.committed ≡ l.committed)

Moves-Keeps : (l k j : UsageLedger) → Moves l k → Keeps k j → Moves l j
Moves-Keeps l k j (m, inl (now, b, c)) (m', b', c') = (m' ∙ m, inl (now, b' ∙ b, c' ∙ c))
Moves-Keeps l k j (m, inr (n, b, c)) (m', b', c') = (m' ∙ m, inr (n, b' ∙ b, c' ∙ c))

Keeps→Moves : (l k : UsageLedger) → Keeps l k → Moves l k
Keeps→Moves l k (m, b, c) = (m, inr (0, b, c))

ask-Keeps :
    (key : Text) (db_sum midnight : ℕ) (l : UsageLedger)
    → Keeps l (tokens_used_today key db_sum midnight l).1
unfolding tokens_used_today
ask-Keeps key db_sum midnight l = ground arith

prune-Keeps :
    (days : ℕ) (changes : Option ℕ) (now : ℕ) (l : UsageLedger)
    → Keeps l (prune_older_than days changes now l).1
unfolding prune_older_than
prune-Keeps days changes now l = ground (arith, warn-keeps now l)

warn-Keeps : (now : ℕ) (l : UsageLedger) → Keeps l (warn_throttled now l)
warn-Keeps now l = let kept = warn-keeps now l in (kept.1, kept.0, kept.2)

close-Moves :
    (ok checkpoint_ok : Bool) (now : ℕ) (l : UsageLedger) → Moves l (close ok checkpoint_ok now l)
unfolding close
close-Moves ok checkpoint_ok now l =
    let shut = record l { timer_armed = false; closed = true; tokens_today_cache = [] } in
    let ended = close_buffer ok now shut in
    let moved = close_buffer-Moves ok now shut in
    go l.closed checkpoint_ok (warn_throttled now ended) ended
      (Moves-Keeps shut ended (warn_throttled now ended) moved (warn-Keeps now ended)) moved
  where
    go :
        (c o : Bool) (x y : UsageLedger)
        → Moves l x
        → Moves l y
        → Moves l (if c then l else if o then y else x)
    go true o x y hx hy = Keeps→Moves l l (refl, refl, refl)
    go false true x y hx hy = hy
    go false false x y hx hy = hx
