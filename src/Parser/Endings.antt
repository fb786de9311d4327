-- ===== src/Parser/Endings.antt =====
-- Which objects `classifyEvent` of src/host/parser.ts comes to an end with: it calls itself again on
-- an object that it rewrote.
use agy_proxy.Prelude.{
  ℕ, zero, suc, Bool, true, false, not, ◌&&◌, Option, none, some, Text, codes, eq_text, ◌≡◌, refl,
  ◌∙◌, ap, sym, subst, eq_text→eq, inl, inr, Bool-cases, Option-cases, arith,
}
use agy_proxy.Parser.{Json, str, obj, Fields, end, field, Host, get, is_one_of, as_string}
use agy_proxy.Parser.Classify.{
  Classified, out_of_fuel, ignored, classified, event_name, is_defined, is_result_shape,
  is_step_shape, nested_step, with_event, infer, name_of, EventName, init_name, step_name,
  result_name, other_name, event_kind, classify_as, infer_as, classify_object, is_object_or_array,
}

is_other : EventName → Bool
is_other other_name = true
is_other init_name = false
is_other step_name = false
is_other result_name = false

-- An event that is not a known one, with a step type, and without the shape of a result.
unfoldable pub is_rewritten_to_itself : Fields → Bool
unfolding is_other
is_rewritten_to_itself o =
    is_other (event_kind (event_name o))
    && not (is_result_shape o)
    && is_step_shape o
    && is_defined (get (codes "event") o)

unfoldable pub is_ended : Classified → Bool
is_ended out_of_fuel = false
is_ended ignored = true
is_ended (classified ev) = true

known_ends :
    (host : Host) (seq : ℕ) (k : EventName) (c : Classified) (o : Fields)
    → is_other k ≡ false
    → is_ended (classify_as host seq k c o) ≡ true
unfolding classify_as is_ended is_other
known_ends host seq init_name c o h = refl
known_ends host seq step_name c o h = refl
known_ends host seq result_name c o h = refl
known_ends host seq other_name c o h = cc

other_infers :
    (host : Host) (seq : ℕ) (k : EventName) (c : Classified) (o : Fields)
    → is_other k ≡ true
    → classify_as host seq k c o ≡ c
unfolding classify_as is_other
other_infers host seq init_name c o h = cc
other_infers host seq step_name c o h = cc
other_infers host seq result_name c o h = cc
other_infers host seq other_name c o h = refl

-- An object with the event of a result or of a step ends at once.
named_ends :
    (host : Host) (seq fuel : ℕ) (o : Fields)
    → is_ended
        (classify_object host seq (suc fuel) (field (codes "event") (str (codes "result")) o))
      ≡ true
unfolding classify_object classify_as is_ended event_name get event_kind is_one_of as_string name_of
    eq_text
named_ends host seq fuel o = refl

step_ends :
    (host : Host) (seq fuel : ℕ) (o : Fields)
    → is_ended
        (classify_object host seq (suc fuel) (field (codes "event") (str (codes "step_update")) o))
      ≡ true
unfolding classify_object classify_as is_ended event_name get event_kind is_one_of as_string name_of
    eq_text
step_ends host seq fuel o = refl

infer_as_ends :
    (host : Host) (seq fuel : ℕ) (r s : Bool) (n : Option Json) (o : Fields)
    → (r ≡ false → s ≡ true → get (codes "event") o ≡ none)
    → is_ended (infer_as (classify_object host seq (suc fuel)) r s n o) ≡ true
unfolding infer_as with_event is_ended
infer_as_ends host seq fuel true s n o h =
    named_ends host seq fuel (field (codes "result") (obj o) end)
infer_as_ends host seq fuel false true n o h =
    rw (with_event, h refl refl) (step_ends host seq fuel o)
infer_as_ends host seq fuel false false none o h = refl
infer_as_ends host seq fuel false false (some v) o h =
    elim (Bool-cases (is_object_or_array (some v))) [
      | inl e ↦ rw e (step_ends host seq fuel (field (codes "step_update") v end))
      | inr e ↦ rw e refl
    ]

is_defined→none : (v : Option Json) → is_defined v ≡ false → v ≡ none
unfolding is_defined
is_defined→none none h = refl
is_defined→none (some v) h = cc

-- The classification of an object ends, and calls itself at most once, unless the object has an event
-- that is not a known one, a step type, and not the shape of a result.
pub classify_ends :
    (host : Host) (seq fuel : ℕ) (o : Fields)
    → is_rewritten_to_itself o ≡ false
    → is_ended (classify_object host seq (suc (suc fuel)) o) ≡ true
unfolding classify_object infer is_rewritten_to_itself
classify_ends host seq fuel o h = elim (Bool-cases (is_other (event_kind (event_name o)))) [
  | inl k ↦
      rw
        (
          classify_object,
          other_infers host seq (event_kind (event_name o))
              (infer (classify_object host seq (suc fuel)) o) o k,
        )
        (infer_as_ends host seq fuel (is_result_shape o) (is_step_shape o) (nested_step o) o
          (λ r s. is_defined→none (get (codes "event") o) (ground (arith, h, k, r, s))))
  | inr k ↦
      known_ends host seq (event_kind (event_name o))
        (infer (classify_object host seq (suc fuel)) o) o k
]

-- Keeping the event keeps what the classification reads.
with_event-get :
    (name key : Text) (o : Fields)
    → is_defined (get (codes "event") o) ≡ true
    → get key (with_event name o) ≡ get key o
unfolding with_event get is_defined
with_event-get name key o h = elim (Option-cases (get (codes "event") o)) [
  | inl q ↦ absurd (ground (arith, h, q))
  | inr (v, q) ↦ elim (Bool-cases (eq_text (codes "event") key)) [
    | inl e ↦
        rw (with_event, q, e)
          (sym (subst (λ k. get k o ≡ some v) (eq_text→eq (codes "event") key e) q))
    | inr e ↦ rw (with_event, q, e) refl
  ]
]

with_event-event_name :
    (name : Text) (o : Fields)
    → is_defined (get (codes "event") o) ≡ true
    → event_name (with_event name o) ≡ event_name o
unfolding event_name
with_event-event_name name o h =
    cc (with_event-get name (codes "event") o h, with_event-get name (codes "type") o h)

event_defined :
    (o : Fields) → is_rewritten_to_itself o ≡ true → is_defined (get (codes "event") o) ≡ true
unfolding is_rewritten_to_itself
event_defined o h = ground (arith, h)

with_event-stays :
    (name : Text) (o : Fields)
    → is_rewritten_to_itself o ≡ true
    → is_rewritten_to_itself (with_event name o) ≡ true
unfolding is_rewritten_to_itself is_result_shape is_step_shape
with_event-stays name o h =
    let d : is_defined (get (codes "event") o) ≡ true = event_defined o h in
    rw
      (
        with_event-event_name name o d,
        with_event-get name (codes "usage") o d,
        with_event-get name (codes "status") o d,
        with_event-get name (codes "response") o d,
        with_event-get name (codes "step_type") o d,
        with_event-get name (codes "stepType") o d,
        with_event-get name (codes "event") o d,
      )
      h

is_other_here :
    (o : Fields) → is_rewritten_to_itself o ≡ true → is_other (event_kind (event_name o)) ≡ true
unfolding is_rewritten_to_itself
is_other_here o h = ground (arith, h)

infer_again :
    (host : Host) (seq fuel : ℕ) (o : Fields)
    → is_rewritten_to_itself o ≡ true
    → infer (classify_object host seq fuel) o
      ≡ classify_object host seq fuel (with_event (codes "step_update") o)
unfolding infer infer_as is_rewritten_to_itself
infer_again host seq fuel o h =
    let not_result : is_result_shape o ≡ false = ground (arith, h) in
    let step : is_step_shape o ≡ true = ground (arith, h) in rw (infer, not_result, step) refl

-- On such an object the classification calls itself without end: no fuel is enough.
pub classify_never_ends :
    (host : Host) (seq fuel : ℕ) (o : Fields)
    → is_rewritten_to_itself o ≡ true
    → classify_object host seq fuel o ≡ out_of_fuel
unfolding classify_object
classify_never_ends host seq zero o h = refl
classify_never_ends host seq (suc fuel) o h =
    let rounds = infer (classify_object host seq fuel) o in
    other_infers host seq (event_kind (event_name o)) rounds o (is_other_here o h)
    ∙ infer_again host seq fuel o h
    ∙ classify_never_ends host seq fuel (with_event (codes "step_update") o)
        (with_event-stays (codes "step_update") o h)

-- The classification of an object ends exactly if the object is not one that is rewritten to itself:
-- one with an event that is not a known one, with a step type, and without the shape of a result. Two
-- calls are then enough; otherwise it calls itself without end.
pub classify_ends_iff :
    (host : Host) (seq fuel : ℕ) (o : Fields)
    → is_ended (classify_object host seq (suc (suc fuel)) o) ≡ not (is_rewritten_to_itself o)
unfolding is_ended
classify_ends_iff host seq fuel o = elim (Bool-cases (is_rewritten_to_itself o)) [
  | inl e ↦ ap is_ended (classify_never_ends host seq (suc (suc fuel)) o e) ∙ sym (ap not e)
  | inr e ↦ classify_ends host seq fuel o e ∙ sym (ap not e)
]
