-- ===== src/Mapper/Translate/Grammar.antt =====
-- The protocol of a stream's chunks, as src/host/stream-types.ts describes it, and the block operations
-- of src/host/mapper.ts held against it.
pub mod Stream
use agy_proxy.Prelude.{
  ℕ, suc, Bool, true, false, not, ◌↔◌, List, [], ◌∷◌, ◌++◌, Option, none, some, Text, codes, ◌≡◌,
  refl, sym, subst, inl, inr, Bool-cases, Option-cases, eq_text, if◌then◌else◌, ◌&&◌, ◌||◌,
}
use agy_proxy.Mapper.{
  RawUsage, StepEvent, ResultEvent, AgyToolInfo, AgyEvent, StreamChunk, EventMapper, OpenType,
  FinishReason, TokenUsage, Host, usage_from_raw, stop, zero_usage, scrub_token_material, Yields,
  new_mapper, and_then, close_open, ensure_block, append_delta, block_type, assembled, delta_type,
  delta_chunk, start_block, is_open, same_type, open_text, open_reasoning, text, reasoning,
  tool_call, block_start, text_delta, reasoning_delta, text_block, reasoning_block, block_end,
  usage, finish, tool_call_block, init_event, step_event, result_event, garbage_event, text_step,
  thinking_step, tool_step, AgyStepKind, subagent_step, title_step, user_input_step, unknown_step,
  suffix_delta,
}
use agy_proxy.Mapper.Translate.{
  final_usage, replay_state, failure_reason, remember, snapshot, fragment_of, note_step_usage,
  text_of, is_complete, cut, tool_of, map_step, finish_result, fallback_text, error_note,
  map_result, map_live, map_event, FailureKind, emit_failure, has_text, emitted,
}

-- Between blocks, with the next index; inside a block, with its index, kind and text; after the
-- usage; at the end.
pub data Phase : Type 0 where
  idle : ℕ → Phase
  inside : ℕ → OpenType → Text → Phase
  calling : ℕ → Phase
  counted : Phase
  over : Phase

-- What one chunk may do.
pub data Step : Phase → StreamChunk → Phase → Type 0 where
  starts_text : (i : ℕ) → Step (idle i) (block_start i text) (inside i open_text [])
  starts_reasoning : (i : ℕ) → Step (idle i) (block_start i reasoning) (inside i open_reasoning [])
  text_grows :
      (i : ℕ) (acc delta : Text)
      → Step (inside i open_text acc) (text_delta i delta) (inside i open_text (acc ++ delta))
  reasoning_grows :
      (i : ℕ) (acc delta : Text)
      → Step
          (inside i open_reasoning acc)
          (reasoning_delta i delta)
          (inside i open_reasoning (acc ++ delta))
  ends_text :
      (i : ℕ) (acc : Text)
      → Step (inside i open_text acc) (block_end i (text_block acc)) (idle (suc i))
  ends_reasoning :
      (i : ℕ) (acc : Text)
      → Step (inside i open_reasoning acc) (block_end i (reasoning_block acc)) (idle (suc i))
  calls : (i : ℕ) → Step (idle i) (block_start i tool_call) (calling i)
  called :
      (i : ℕ) (id name arguments : Text)
      → Step (calling i) (block_end i (tool_call_block id name arguments)) (idle (suc i))
  counts : (i : ℕ) (u : TokenUsage) → Step (idle i) (usage u) counted
  finishes :
      (reason : FinishReason) (replay : Option Text) → Step counted (finish reason replay) over

starts : (i : ℕ) (k : OpenType) → Step (idle i) (block_start i (block_type k)) (inside i k [])
unfolding block_type
starts i open_text = starts_text i
starts i open_reasoning = starts_reasoning i

grows :
    (i : ℕ) (k : OpenType) (acc delta : Text)
    → Step (inside i k acc) (delta_chunk k i delta) (inside i k (acc ++ delta))
unfolding delta_chunk
grows i open_text acc delta = text_grows i acc delta
grows i open_reasoning acc delta = reasoning_grows i acc delta

ends :
    (i : ℕ) (k : OpenType) (acc : Text)
    → Step (inside i k acc) (block_end i (assembled k acc)) (idle (suc i))
unfolding assembled
ends i open_text acc = ends_text i acc
ends i open_reasoning acc = ends_reasoning i acc

-- What a list of chunks may do.
abbrev pub Follows : Phase → List StreamChunk → Phase → Type 0
Follows p [] q = p ≡ q
Follows p (c ∷ chunks) q = (r : Phase) × Step p c r × Follows r chunks q

Follows-append :
    (p : Phase) (xs ys : List StreamChunk) (q r : Phase)
    → Follows p xs q
    → Follows q ys r
    → Follows p (xs ++ ys) r
Follows-append p [] ys q r e g = subst (λ x. Follows x ys r) (sym e) g
Follows-append p (c ∷ xs) ys q r (p', s, f) g = (p', s, Follows-append p' xs ys q r f g)

phase_of : Bool → Option OpenType → ℕ → Text → Phase
phase_of true k i acc = over
phase_of false none i acc = idle i
phase_of false (some k) i acc = inside i k acc

if-rec :
    (P : Yields → Type 0) (b : Bool) {x y : Yields}
    → (b ≡ true → P x)
    → (b ≡ false → P y)
    → P (if b then x else y)
if-rec P true px py = px refl
if-rec P false px py = py refl

phase-over :
    (f : Bool) (k : Option OpenType) (i : ℕ) (acc : Text) → phase_of f k i acc ≡ over ↔ f ≡ true
unfolding phase_of
phase-over true k i acc = (λ _. refl, λ _. refl)
phase-over false none i acc = (λ e. cc, λ e. cc)
phase-over false (some k) i acc = (λ e. cc, λ e. cc)

-- Where a mapper stands.
abbrev phase : EventMapper → Phase
phase m = phase_of m.finished m.open_type m.block_idx m.open_acc

abbrev Sound : EventMapper → Yields → Type 0
Sound m r = Follows (phase m) r.0 (phase r.1)

Sound-and_then :
    (m : EventMapper) (r : Yields) (next : EventMapper → Yields)
    → Sound m r
    → Sound r.1 (next r.1)
    → Sound m (and_then r next)
unfolding and_then
Sound-and_then m r next f g =
    Follows-append (phase m) r.0 (next r.1).0 (phase r.1) (phase (next r.1).1) f g

-- Closing leaves no open block.
close-Sound :
    (m : EventMapper)
    → m.finished ≡ false
    → Sound m (close_open m)
      × ((close_open m).1.open_type ≡ none)
      × ((close_open m).1.finished ≡ false)
unfolding close_open phase_of
close-Sound m f = elim (Option-cases m.open_type) [
  | inl q ↦ rw (q, f) (refl, refl, refl)
  | inr (k, q) ↦
      rw (q, f) ((idle (suc m.block_idx), ends m.block_idx k m.open_acc, refl), refl, refl)
]

-- A part of a generator that does not finish the stream.
abbrev Runs : EventMapper → Yields → Type 0
Runs m r = Sound m r × (r.1.finished ≡ false)

-- One that leaves a block of the kind `k` open.
abbrev Opens : OpenType → EventMapper → Yields → Type 0
Opens k m r = Sound m r × (r.1.open_type ≡ some k) × (r.1.finished ≡ false)

start-Opens :
    (k : OpenType) (m : EventMapper)
    → m.open_type ≡ none
    → m.finished ≡ false
    → Opens k m (start_block k m)
unfolding start_block phase_of
start-Opens k m q f = rw (q, f) ((inside m.block_idx k [], starts m.block_idx k, refl), refl, refl)

is_open→some : (k : OpenType) (o : Option OpenType) → is_open k o ≡ true → o ≡ some k
unfolding is_open same_type
is_open→some k none e = cc
is_open→some open_text (some open_text) e = refl
is_open→some open_text (some open_reasoning) e = cc
is_open→some open_reasoning (some open_text) e = cc
is_open→some open_reasoning (some open_reasoning) e = refl

ensure-Opens : (k : OpenType) (m : EventMapper) → m.finished ≡ false → Opens k m (ensure_block k m)
unfolding ensure_block phase_of
ensure-Opens k m f = elim (Bool-cases (is_open k m.open_type)) [
  | inl e ↦ rw e (refl, is_open→some k m.open_type e, f)
  | inr e ↦
      let closed = close-Sound m f in
      let opened = start-Opens k (close_open m).1 closed.1 closed.2 in
      rw e (Sound-and_then m (close_open m) (start_block k) closed.0 opened.0, opened.1, opened.2)
]

append-Opens :
    (k : OpenType) (delta : Text) (m : EventMapper)
    → m.open_type ≡ some k
    → m.finished ≡ false
    → Opens k m (append_delta delta m)
unfolding append_delta delta_type phase_of
append-Opens k [] m q f = (refl, q, f)
append-Opens k (c ∷ delta) m q f =
    rw (q, f)
      (
        (
          inside m.block_idx k (m.open_acc ++ (c ∷ delta)),
          grows m.block_idx k m.open_acc (c ∷ delta),
          refl,
        ),
        refl,
        refl,
      )

-- A block is ensured and a delta appended.
block-Opens :
    (k : OpenType) (delta : Text) (m : EventMapper)
    → m.finished ≡ false
    → Opens k m (and_then (ensure_block k m) (append_delta delta))
unfolding and_then
block-Opens k delta m f =
    let ensured = ensure-Opens k m f in
    let appended = append-Opens k delta (ensure_block k m).1 ensured.1 ensured.2 in
    (
      Sound-and_then m (ensure_block k m) (append_delta delta) ensured.0 appended.0,
      appended.1,
      appended.2,
    )

snapshot-Opens :
    (k : OpenType) (ev : StepEvent) (m : EventMapper)
    → m.finished ≡ false
    → Opens k m (and_then (ensure_block k m) (snapshot ev))
unfolding and_then snapshot remember
snapshot-Opens k ev m f =
    let ensured = ensure-Opens k m f in
    let n = (ensure_block k m).1 in
    let appended =
      append-Opens k (suffix_delta (emitted ev.step_key n.emitted_by_key) ev.text)
        (remember ev.step_key ev.text n) ensured.1 ensured.2 in
    (Sound-and_then m (ensure_block k m) (snapshot ev) ensured.0 appended.0, appended.1, appended.2)
