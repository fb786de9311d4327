-- ===== src/Recording/Registry.antt =====
-- The registry of src/host/recording.ts, a `Map` in the order of insertion.
use agy_proxy.Prelude.{
  ℕ, zero, suc, ◌≤◌, ◌<◌, max, true, false, List, [], ◌∷◌, Option, none, some, Text, length, ◌==◌,
  eq_text, eq_text_refl, ltb, if◌then◌else◌, ◌≡◌, refl, All, ◌⊎◌, inl, inr, Bool-cases, arith,
}
use agy_proxy.Recording.{RunRecording}

unfoldable pub set_run : RunRecording → List RunRecording → List RunRecording
set_run r [] = r ∷ []
set_run r (x ∷ runs) =
    let later = set_run r runs in if eq_text x.run_id r.run_id then r ∷ runs else x ∷ later

unfoldable pub forget : Text → List RunRecording → List RunRecording
forget id [] = []
forget id (x ∷ runs) = let later = forget id runs in if eq_text x.run_id id then runs else x ∷ later

unfoldable pub get_run : Text → List RunRecording → Option RunRecording
get_run id [] = none
get_run id (x ∷ runs) = let later = get_run id runs in if eq_text x.run_id id then some x else later

-- 1 for a settled run that no continuation needs, 2 for a settled one that is kept, 3 for a live one.
unfoldable pub class_of_run : RunRecording → ℕ
class_of_run r = if r.settled then (if r.keep_for_continuation then 2 else 1) else 3

-- The scan of `pickVictim`, with its fallback: a later run wins only by a smaller class.
unfoldable pub pick_from : Option Text → ℕ → List RunRecording → Option Text
unfolding class_of_run
pick_from fallback class [] = fallback
pick_from fallback class (r ∷ runs) =
    let found = pick_from (some r.run_id) (class_of_run r) runs in
    let kept = pick_from fallback class runs in
    if ltb (class_of_run r) class
    then if class_of_run r == 1 then some r.run_id else found
    else kept

unfoldable pub pick_victim : List RunRecording → Option Text
unfolding pick_from
pick_victim runs = pick_from none 4 runs

-- The loop of `remember`, on fuel. The capacity is what the supplier answers during the call.
unfoldable pub evict : ℕ → ℕ → List RunRecording → List RunRecording
unfolding pick_victim forget
evict zero capacity runs = runs
evict (suc fuel) capacity runs =
    let once : List RunRecording = elim (pick_victim runs) [
      | none ↦ runs
      | some id ↦ evict fuel capacity (forget id runs)
    ] in
    if ltb (max 1 capacity) (length runs) then once else runs

-- The fuel is the number of runs.
unfoldable pub remember : ℕ → RunRecording → List RunRecording → List RunRecording
unfolding set_run evict
remember capacity r runs = evict (length (set_run r runs)) capacity (set_run r runs)

-- A run of this id and class is among them.
abbrev pub Among : Text → ℕ → List RunRecording → Type 0
Among id class [] = false ≡ true
Among id class (r ∷ runs) = ((r.run_id ≡ id) × (class_of_run r ≡ class)) ⊎ Among id class runs

-- A run of the id is there.
abbrev Has : Text → List RunRecording → Type 0
Has id runs = (r : RunRecording) × (get_run id runs ≡ some r)

forget-length :
    (id : Text) (runs : List RunRecording) (r : RunRecording)
    → get_run id runs ≡ some r
    → suc (length (forget id runs)) ≡ length runs
unfolding forget get_run
forget-length id [] r h = cc
forget-length id (x ∷ runs) r h = elim (Bool-cases (eq_text x.run_id id)) [
  | inl e ↦ ground (arith, h, e)
  | inr e ↦ ground (arith, h, e, forget-length id runs r)
]

Has-cons :
    (id : Text) (r : RunRecording) (runs : List RunRecording) → Has id runs → Has id (r ∷ runs)
unfolding get_run
Has-cons id r runs (v, h) = elim (Bool-cases (eq_text r.run_id id)) [
  | inl e ↦ (r, ground (arith, e))
  | inr e ↦ (v, ground (arith, e, h))
]

Has-head :
    (id : Text) (r : RunRecording) (runs : List RunRecording) → r.run_id ≡ id → Has id (r ∷ runs)
unfolding get_run
Has-head id r runs e = (r, rw (e, eq_text_refl id) refl)

pick-Has :
    (class : ℕ) (fallback : Option Text) (runs : List RunRecording) (id : Text)
    → pick_from fallback class runs ≡ some id
    → (fallback ≡ some id) ⊎ Has id runs
unfolding pick_from
pick-Has class fallback [] id h = inl h
pick-Has class fallback (r ∷ runs) id h = elim (Bool-cases (ltb (class_of_run r) class)) [
  | inl l ↦ elim (Bool-cases (class_of_run r == 1)) [
    | inl e ↦ inr (Has-head id r runs (ground (arith, h, l, e)))
    | inr e ↦ elim (pick-Has (class_of_run r) (some r.run_id) runs id (ground (arith, h, l, e))) [
      | inl q ↦ inr (Has-head id r runs (ground (arith, q)))
      | inr q ↦ inr (Has-cons id r runs q)
    ]
  ]
  | inr l ↦ elim (pick-Has class fallback runs id (ground (arith, h, l))) [
    | inl q ↦ inl q
    | inr q ↦ inr (Has-cons id r runs q)
  ]
]

pick_some :
    (class : ℕ) (id : Text) (runs : List RunRecording)
    → (found : Text) × (pick_from (some id) class runs ≡ some found)
unfolding pick_from
pick_some class id [] = (id, refl)
pick_some class id (r ∷ runs) =
    let (f, p) = pick_some (class_of_run r) r.run_id runs in
    let (g, q) = pick_some class id runs in
    elim (Bool-cases (ltb (class_of_run r) class)) [
      | inl l ↦ elim (Bool-cases (class_of_run r == 1)) [
        | inl e ↦ (r.run_id, ground (arith, l, e))
        | inr e ↦ (f, ground (arith, l, e, p))
      ]
      | inr l ↦ (g, ground (arith, l, q))
    ]

class_small : (r : RunRecording) → class_of_run r < 4
unfolding class_of_run
class_small r = ground arith

victim_some :
    (r : RunRecording) (runs : List RunRecording) → (id : Text) × (pick_victim (r ∷ runs) ≡ some id)
unfolding pick_victim pick_from
victim_some r runs =
    let (f, p) = pick_some (class_of_run r) r.run_id runs in
    elim (Bool-cases (class_of_run r == 1)) [
      | inl e ↦ (r.run_id, ground (arith, class_small r, e))
      | inr e ↦ (f, ground (arith, class_small r, e, p))
    ]

victim_found :
    (r : RunRecording) (runs : List RunRecording)
    → (id : Text) × (pick_victim (r ∷ runs) ≡ some id) × Has id (r ∷ runs)
unfolding pick_victim
victim_found r runs =
    let (id, p) = victim_some r runs in
    elim (pick-Has 4 none (r ∷ runs) id p) [ inl q ↦ absurd (cc) | inr q ↦ (id, p, q) ]

-- A run of the id has the class, and none is of a lower class.
abbrev pub Least : Text → List RunRecording → ℕ → Type 0
Least id runs class = Among id class runs × All (λ r. class ≤ class_of_run r) runs

evict_fits :
    (fuel capacity : ℕ) (runs : List RunRecording)
    → length runs ≤ fuel
    → length (evict fuel capacity runs) ≤ max 1 capacity
unfolding evict
evict_fits zero capacity runs h = ground (arith, h)
evict_fits (suc fuel) capacity [] h = ground (arith, h)
evict_fits (suc fuel) capacity (r ∷ runs) h =
    let (id, p, (v, q)) = victim_found r runs in
    ground (
      arith,
      h,
      p,
      forget-length id (r ∷ runs) v q,
      evict_fits fuel capacity (forget id (r ∷ runs)),
    )

-- After a run is remembered no more runs are retained than the capacity, or one where that is 0.
pub remember_fits :
    (capacity : ℕ) (r : RunRecording) (runs : List RunRecording)
    → length (remember capacity r runs) ≤ max 1 capacity
unfolding remember
remember_fits capacity r runs =
    evict_fits (length (set_run r runs)) capacity (set_run r runs) (omega arith)
