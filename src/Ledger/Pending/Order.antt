-- ===== src/Ledger/Pending/Order.antt =====
-- The order of the rows that pass through the ledger of src/server/usage-ledger.ts.
use agy_proxy.Prelude.{
  ℕ, zero, suc, ◌+◌, Bool, true, false, List, [], ◌∷◌, ◌++◌, Option, Text, length, take, drop, leb,
  if◌then◌else◌, ◌≡◌, refl, sym, ap, ◌∙◌, subst, inl, inr,
}
use mathlib.Core.List.{append-nil, append_assoc}
use agy_proxy.Ledger.{
  UsageRecord, InsertParams, UsageLedger, new_ledger, stamp, flush, insert_params, record_usage,
  tokens_used_today, prune_older_than, close, timer_fires,
}
use agy_proxy.Ledger.Pending.{
  Op, perform, perform_all, Moves, flush-Moves, pushed_ledger, timer-Moves, Keeps→Moves, ask-Keeps,
  prune-Keeps, close-Moves, recorded, flushed, fired, asked, pruned, closed_down,
}

-- The request ids, oldest first.
abbrev pub ids : List InsertParams → List Text
ids [] = []
ids (r ∷ rows) = r.request_id ∷ ids rows

-- One list is another with some entries left out.
pub data Sublist : List Text → List Text → Type 0 where
  none_left : Sublist [] []
  kept : (x : Text) (xs ys : List Text) → Sublist xs ys → Sublist (x ∷ xs) (x ∷ ys)
  left_out : (y : Text) (xs ys : List Text) → Sublist xs ys → Sublist xs (y ∷ ys)

Sublist_empty : (ys : List Text) → Sublist [] ys
Sublist_empty [] = none_left
Sublist_empty (y ∷ ys) = left_out y [] ys (Sublist_empty ys)

Sublist_refl : (xs : List Text) → Sublist xs xs
Sublist_refl [] = none_left
Sublist_refl (x ∷ xs) = kept x xs xs (Sublist_refl xs)

Sublist-append :
    (xs ys us vs : List Text) → Sublist xs ys → Sublist us vs → Sublist (xs ++ us) (ys ++ vs)
Sublist-append _ _ us vs none_left t = t
Sublist-append _ _ us vs (kept x xs ys s) t =
    kept x (xs ++ us) (ys ++ vs) (Sublist-append xs ys us vs s t)
Sublist-append _ _ us vs (left_out y xs ys s) t =
    left_out y (xs ++ us) (ys ++ vs) (Sublist-append xs ys us vs s t)

ids-append : (xs ys : List InsertParams) → ids (xs ++ ys) ≡ ids xs ++ ids ys
ids-append [] ys = refl
ids-append (x ∷ xs) ys = ap (λ r. x.request_id ∷ r) (ids-append xs ys)

ids-stamp : (now : ℕ) (rows : List InsertParams) → ids (stamp now rows) ≡ ids rows
unfolding stamp
ids-stamp now [] = refl
ids-stamp now (r ∷ rows) = ap (λ t. r.request_id ∷ t) (ids-stamp now rows)

-- The accepted rows are those that left the buffer and then those in it; of the former some were
-- committed, in their order.
abbrev pub InOrder : List Text → UsageLedger → Type 0
InOrder accepted l =
    (older : List Text) × (accepted ≡ older ++ ids l.buffer) × Sublist (ids l.committed) older

ids-take-drop :
    (n : ℕ) (rows : List InsertParams) → ids rows ≡ ids (take n rows) ++ ids (drop n rows)
ids-take-drop zero rows = refl
ids-take-drop (suc n) [] = refl
ids-take-drop (suc n) (r ∷ rows) = ap (λ t. r.request_id ∷ t) (ids-take-drop n rows)

Moves-InOrder :
    (accepted : List Text) (l k : UsageLedger) → Moves l k → InOrder accepted l → InOrder accepted k
Moves-InOrder accepted l k (m, inl (now, b, c)) (older, e, s) = (
  older ++ ids l.buffer,
  rw b (e ∙ sym (append-nil (older ++ ids l.buffer))),
  rw (c, ids-append, ids-stamp)
      (Sublist-append (ids l.committed) older (ids l.buffer) (ids l.buffer) s
        (Sublist_refl (ids l.buffer))),
)
Moves-InOrder accepted l k (m, inr (n, b, c)) (older, e, s) = (
  older ++ ids (take n l.buffer),
  rw b (
      e
      ∙ ap (λ t. older ++ t) (ids-take-drop n l.buffer)
      ∙ sym (append_assoc older (ids (take n l.buffer)) (ids (drop n l.buffer)))),
  rw c (
      subst (λ t. Sublist t (older ++ ids (take n l.buffer))) (append-nil (ids l.committed))
        (Sublist-append (ids l.committed) older [] (ids (take n l.buffer)) s
          (Sublist_empty (ids (take n l.buffer))))),
)

push-InOrder :
    (accepted : List Text) (fresh : Text) (rec : UsageRecord) (today : ℕ) (l : UsageLedger)
    → InOrder accepted l
    → InOrder
        (accepted ++ ((insert_params fresh rec).request_id ∷ []))
        (pushed_ledger fresh rec today l)
push-InOrder accepted fresh rec today l (older, e, s) = (
  older,
  ap (λ t. t ++ ((insert_params fresh rec).request_id ∷ [])) e
      ∙ append_assoc older (ids l.buffer) ((insert_params fresh rec).request_id ∷ [])
      ∙ ap (λ t. older ++ t) (sym (ids-append l.buffer (insert_params fresh rec ∷ []))),
  s,
)

-- The request id of a row that the operation adds; a closed ledger adds none.
unfoldable pub accepts : Op → UsageLedger → List Text
accepts (recorded fresh rec ok now today) l =
    if l.closed then [] else (insert_params fresh rec).request_id ∷ []
accepts (flushed ok now) l = []
accepts (fired ok now) l = []
accepts (asked key db_sum midnight) l = []
accepts (pruned days changes now) l = []
accepts (closed_down ok checkpoint_ok now) l = []

unfoldable pub accepted_by : List Op → UsageLedger → List Text
unfolding accepts perform
accepted_by [] l = []
accepted_by (op ∷ ops) l = accepts op l ++ accepted_by ops (perform op l)

record-InOrder :
    (accepted : List Text) (fresh : Text) (rec : UsageRecord) (ok : Bool) (now today : ℕ)
    (l : UsageLedger)
    → InOrder accepted l
    → InOrder
        (accepted ++ accepts (recorded fresh rec ok now today) l)
        (record_usage fresh rec ok now today l)
unfolding accepts record_usage
record-InOrder accepted fresh rec ok now today l h =
    let pushed = pushed_ledger fresh rec today l in
    let added = push-InOrder accepted fresh rec today l h in
    go l.closed l.warned_closed (leb 500 (length pushed.buffer)) added (
      Moves-InOrder (accepted ++ ((insert_params fresh rec).request_id ∷ [])) pushed
        (flush ok now pushed) (flush-Moves ok now pushed) added)
  where
    id : Text
    id = (insert_params fresh rec).request_id

    go :
        (c w f : Bool)
        → InOrder (accepted ++ (id ∷ [])) (pushed_ledger fresh rec today l)
        → InOrder (accepted ++ (id ∷ [])) (flush ok now (pushed_ledger fresh rec today l))
        → InOrder (accepted ++ (if c then [] else (id ∷ []))) (
            if c
            then (if w then l else record l { warned_closed = true; logged = l.logged + 1 })
            else if f
            then flush ok now (pushed_ledger fresh rec today l)
            else pushed_ledger fresh rec today l)
    go true true f hp hf = subst (λ a. InOrder a l) (sym (append-nil accepted)) h
    go true false f hp hf = subst (λ a. InOrder a l) (sym (append-nil accepted)) h
    go false w true hp hf = hf
    go false w false hp hf = hp

Moves-accepts-InOrder :
    (accepted : List Text) (l k : UsageLedger)
    → Moves l k
    → InOrder accepted l
    → InOrder (accepted ++ []) k
Moves-accepts-InOrder accepted l k m h =
    subst (λ a. InOrder a k) (sym (append-nil accepted)) (Moves-InOrder accepted l k m h)

perform-InOrder :
    (op : Op) (accepted : List Text) (l : UsageLedger)
    → InOrder accepted l
    → InOrder (accepted ++ accepts op l) (perform op l)
unfolding perform accepts
perform-InOrder (recorded fresh rec ok now today) accepted l h =
    record-InOrder accepted fresh rec ok now today l h
perform-InOrder (flushed ok now) accepted l h =
    Moves-accepts-InOrder accepted l (flush ok now l) (flush-Moves ok now l) h
perform-InOrder (fired ok now) accepted l h =
    Moves-accepts-InOrder accepted l (timer_fires ok now l) (timer-Moves ok now l) h
perform-InOrder (asked key db_sum midnight) accepted l h =
    let asked = (tokens_used_today key db_sum midnight l).1 in
    Moves-accepts-InOrder accepted l asked (Keeps→Moves l asked (ask-Keeps key db_sum midnight l)) h
perform-InOrder (pruned days changes now) accepted l h =
    let pruned = (prune_older_than days changes now l).1 in
    Moves-accepts-InOrder accepted l pruned (Keeps→Moves l pruned (prune-Keeps days changes now l))
      h
perform-InOrder (closed_down ok checkpoint_ok now) accepted l h =
    Moves-accepts-InOrder accepted l (close ok checkpoint_ok now l)
      (close-Moves ok checkpoint_ok now l) h

perform_all-InOrder :
    (ops : List Op) (accepted : List Text) (l : UsageLedger)
    → InOrder accepted l
    → InOrder (accepted ++ accepted_by ops l) (perform_all ops l)
unfolding perform_all accepted_by
perform_all-InOrder [] accepted l h = subst (λ a. InOrder a l) (sym (append-nil accepted)) h
perform_all-InOrder (op ∷ ops) accepted l h =
    subst (λ a. InOrder a (perform_all ops (perform op l)))
      (append_assoc accepted (accepts op l) (accepted_by ops (perform op l)))
      (perform_all-InOrder ops (accepted ++ accepts op l) (perform op l)
        (perform-InOrder op accepted l h))

-- However the transactions of a new ledger turn out, the rows it accepted are, in the order of their
-- arrival, rows that have left the buffer and then the rows that wait; the committed rows are among
-- the former, each at most once and in that order.
pub rows-InOrder :
    (ops : List Op) (flush_interval_ms max_pending_rows : Option ℕ)
    → let l = new_ledger flush_interval_ms max_pending_rows in
      InOrder (accepted_by ops l) (perform_all ops l)
unfolding new_ledger
rows-InOrder ops flush_interval_ms max_pending_rows =
    perform_all-InOrder ops [] (new_ledger flush_interval_ms max_pending_rows) ([], refl, none_left)
