-- ===== src/Sessions/Restart.antt =====
-- What a restart of `SessionStore` of src/host/sessions.ts finds in the file.
use agy_proxy.Prelude.{
  none, some, ℕ, Bool, true, false, not, ◌||◌, List, [], ◌∷◌, Text, ◌≡◌, refl, ap, ◌∙◌, sym, arith,
  false≢true, if-true, if-false, inl, inr, set_key, delete_key, if◌then◌else◌, Bool-cases,
}
use agy_proxy.Sessions.{
  SessionBinding, Parsed, object, array, other_shape, parse_error, Host, File, absent, unreadable,
  holds, SessionStore, Action, set, delete, clear, timer_ends, flush, quarantine, load_parsed,
  load_file, load, empty_store, persist_soon, warn_throttled, persist, written, when_dirty, perform,
  perform_all,
}

-- The bindings as the calls leave them, with no file and no timer.
unfoldable pub apply_call : Action → List (Text × SessionBinding) → List (Text × SessionBinding)
apply_call (set key b) m = set_key key b m
apply_call (delete key) m = delete_key key m
apply_call clear m = []
apply_call (timer_ends writes now) m = m
apply_call (flush writes now) m = m

unfoldable pub apply_calls :
    List Action → List (Text × SessionBinding) → List (Text × SessionBinding)
apply_calls [] m = m
apply_calls (a ∷ rest) m = apply_calls rest (apply_call a m)

-- Whether a write that failed may have been the last after the last change.
unfoldable pub lost_after : Action → Bool → Bool
lost_after (set key b) lost = false
lost_after (delete key) lost = false
lost_after clear lost = false
lost_after (timer_ends writes now) lost = lost || not writes
lost_after (flush writes now) lost = lost || not writes

unfoldable pub lost_by : List Action → Bool → Bool
lost_by [] lost = lost
lost_by (a ∷ rest) lost = lost_by rest (lost_after a lost)

-- What JSON writes it reads back.
unfoldable pub ReadsBack : {Doc : Type 0} → Host Doc → Type 0
ReadsBack host =
    ((m : List (Text × SessionBinding)) → host.parse (host.stringify m) ≡ object m)
    × ((xs : List SessionBinding) → host.parse (host.stringify_array xs) ≡ array xs)

module _ {Doc : Type 0} where
  unfoldable pub restored : Host Doc → File Doc → List (Text × SessionBinding)
  restored host f = (load host true f).bindings

  parsed-bindings :
      (renames : Bool) (p : Parsed) (s : SessionStore Doc)
      → (load_parsed renames p s).bindings ≡ (load_parsed true p s).bindings
  unfolding load_parsed quarantine
  parsed-bindings renames (object m) s = refl
  parsed-bindings renames (array xs) s = refl
  parsed-bindings renames other_shape s = refl
  parsed-bindings renames parse_error s = refl

  pub load-restored :
      (host : Host Doc) (renames : Bool) (f : File Doc)
      → (load host renames f).bindings ≡ restored host f
  unfolding load load_file restored quarantine
  load-restored host renames absent = refl
  load-restored host renames unreadable = refl
  load-restored host renames (holds doc) =
      parsed-bindings renames (host.parse doc) (empty_store (holds doc))

  -- The data is an object, and a store that has nothing to write is what its file holds, unless a write
  -- was lost.
  Kept : Host Doc → Bool → SessionStore Doc → Type 0
  Kept host lost s =
      (s.elements ≡ none)
      × (lost ≡ false → s.persist_dirty ≡ false → restored host s.file ≡ s.bindings)

  written-restored :
      (host : Host Doc)
      → ReadsBack host
      → (m : List (Text × SessionBinding)) → restored host (holds (host.stringify m)) ≡ m
  unfolding restored load load_file load_parsed ReadsBack
  written-restored host h m =
      ap (λ p. (load_parsed true p (empty_store (holds (host.stringify m)))).bindings) (h.0 m)

  object-restored :
      (host : Host Doc)
      → ReadsBack host
      → (s : SessionStore Doc) → s.elements ≡ none
      → restored host (holds (written host s)) ≡ s.bindings
  unfolding written
  object-restored host h s none_there =
      ap
        (λ e. restored host (
          holds (elim e as (λ _. Doc) [
            | none ↦ host.stringify s.bindings
            | some xs ↦ host.stringify_array xs
          ])))
        none_there
      ∙ written-restored host h s.bindings

  persist-elements :
      (host : Host Doc) (writes : Bool) (now : ℕ) (s : SessionStore Doc)
      → (persist host writes now s).elements ≡ s.elements
  unfolding persist warn_throttled
  persist-elements host writes now s = ground arith

  persist-Kept :
      (host : Host Doc)
      → ReadsBack host
      → (lost writes : Bool) (now : ℕ) (s : SessionStore Doc) → s.elements ≡ none
      → Kept host (lost || not writes) (persist host writes now s)
  unfolding persist Kept written
  persist-Kept host h lost true now s k = (k, λ _ _. object-restored host h s k)
  persist-Kept host h false false now s k =
      (persist-elements host false now s ∙ k, λ e _. absurd (false≢true (sym e)))
  persist-Kept host h true false now s k =
      (persist-elements host false now s ∙ k, λ e _. absurd (false≢true (sym e)))

  weaker-Kept :
      (host : Host Doc) (lost : Bool) (other : Bool) (s : SessionStore Doc)
      → Kept host lost s
      → Kept host (lost || other) s
  unfolding Kept
  weaker-Kept host true other s k = (k.0, λ e _. absurd (false≢true (sym e)))
  weaker-Kept host false other s k = (k.0, λ _. k.1 refl)

  when_dirty-Kept :
      (host : Host Doc)
      → ReadsBack host
      → (lost writes : Bool) (now : ℕ) (s : SessionStore Doc) → Kept host lost s
      → Kept host (lost || not writes) (when_dirty host writes now s)
  unfolding when_dirty Kept
  when_dirty-Kept host h lost writes now s k =
      elim (s.persist_dirty)
        as (λ b. Kept host (lost || not writes) (if b then persist host writes now s else s)) [
          | true ↦ persist-Kept host h lost writes now s k.0
          | false ↦ weaker-Kept host lost (not writes) s k
        ]

  perform-Kept :
      (host : Host Doc)
      → ReadsBack host
      → (a : Action) (lost : Bool) (s : SessionStore Doc) → Kept host lost s
      → Kept host (lost_after a lost) (perform host a s)
  unfolding perform persist_soon lost_after Kept
  perform-Kept host h (set key b) lost s k = (k.0, λ _ e. absurd (false≢true (sym e)))
  perform-Kept host h (delete key) lost s k = (k.0, λ _ e. absurd (false≢true (sym e)))
  perform-Kept host h clear lost s k = (refl, λ _ e. absurd (false≢true (sym e)))
  perform-Kept host h (timer_ends writes now) lost s k =
      elim (s.persist_timer)
        as (λ b.
          Kept host (lost || not writes)
            (if b then when_dirty host writes now (record s { persist_timer = false }) else s)) [
              | true ↦ when_dirty-Kept host h lost writes now (record s { persist_timer = false }) k
              | false ↦ weaker-Kept host lost (not writes) s k
            ]
  perform-Kept host h (flush writes now) lost s k = when_dirty-Kept host h lost writes now s k

  persist-bindings :
      (host : Host Doc) (writes : Bool) (now : ℕ) (s : SessionStore Doc)
      → (persist host writes now s).bindings ≡ s.bindings
  unfolding persist warn_throttled
  persist-bindings host writes now s = ground arith

  when_dirty-bindings :
      (host : Host Doc) (writes : Bool) (now : ℕ) (s : SessionStore Doc)
      → (when_dirty host writes now s).bindings ≡ s.bindings
  unfolding when_dirty
  when_dirty-bindings host writes now s = ground (arith, persist-bindings host writes now s)

  perform-bindings :
      (host : Host Doc) (a : Action) (s : SessionStore Doc)
      → (perform host a s).bindings ≡ apply_call a s.bindings
  unfolding perform persist_soon apply_call
  perform-bindings host (set key b) s = refl
  perform-bindings host (delete key) s = refl
  perform-bindings host clear s = refl
  perform-bindings host (timer_ends writes now) s =
      ground (arith, when_dirty-bindings host writes now (record s { persist_timer = false }))
  perform-bindings host (flush writes now) s = when_dirty-bindings host writes now s

  perform_all-bindings :
      (host : Host Doc) (actions : List Action) (s : SessionStore Doc)
      → (perform_all host actions s).bindings ≡ apply_calls actions s.bindings
  unfolding perform_all apply_calls
  perform_all-bindings host [] s = refl
  perform_all-bindings host (a ∷ rest) s =
      perform_all-bindings host rest (perform host a s)
      ∙ ap (apply_calls rest) (perform-bindings host a s)

  perform_all-Kept :
      (host : Host Doc)
      → ReadsBack host
      → (actions : List Action) (lost : Bool) (s : SessionStore Doc) → Kept host lost s
      → Kept host (lost_by actions lost) (perform_all host actions s)
  unfolding perform_all lost_by
  perform_all-Kept host h [] lost s k = k
  perform_all-Kept host h (a ∷ rest) lost s k =
      perform_all-Kept host h rest (lost_after a lost) (perform host a s)
        (perform-Kept host h a lost s k)

  flushed-restored :
      (host : Host Doc)
      → ReadsBack host
      → (now : ℕ) (s : SessionStore Doc) → Kept host false s
      → restored host (when_dirty host true now s).file ≡ s.bindings
  unfolding when_dirty Kept persist restored written
  flushed-restored host h now s k = elim (Bool-cases s.persist_dirty) [
    | inl e ↦
        ap (λ t. restored host t.file) (if-true s.persist_dirty (persist host true now s) s e)
        ∙ object-restored host h s k.0
    | inr e ↦
        ap (λ t. restored host t.file) (if-false s.persist_dirty (persist host true now s) s e)
        ∙ k.1 refl e
  ]

  parsed-restored :
      (host : Host Doc) (renames : Bool) (doc : Doc) (p : Parsed)
      → host.parse doc ≡ p
      → restored host (load_parsed renames p (empty_store (holds doc))).file
        ≡ (load_parsed renames p (empty_store (holds doc))).bindings
  unfolding restored load load_file load_parsed quarantine empty_store
  parsed-restored host renames doc (object m) e =
      ap (λ q. (load_parsed true q (empty_store (holds doc))).bindings) e
  parsed-restored host renames doc (array xs) e =
      ap (λ q. (load_parsed true q (empty_store (holds doc))).bindings) e
  parsed-restored host true doc other_shape e = refl
  parsed-restored host false doc other_shape e =
      ap (λ q. (load_parsed true q (empty_store (holds doc))).bindings) e
  parsed-restored host true doc parse_error e = refl
  parsed-restored host false doc parse_error e =
      ap (λ q. (load_parsed true q (empty_store (holds doc))).bindings) e

  loaded-Kept :
      (host : Host Doc) (renames : Bool) (f : File Doc)
      → (load host renames f).elements ≡ none
      → Kept host false (load host renames f)
  unfolding Kept load load_file load_parsed quarantine restored empty_store
  loaded-Kept host renames absent k = (k, λ _ _. refl)
  loaded-Kept host true unreadable k = (k, λ _ _. refl)
  loaded-Kept host false unreadable k = (k, λ _ _. refl)
  loaded-Kept host renames (holds doc) k =
      (k, λ _ _. parsed-restored host renames doc (host.parse doc) refl)

  -- Where JSON reads back what it writes: a store is loaded from any file, also a damaged one, that
  -- does not hold an array, calls and timers follow in any order, and the last write since the last
  -- change did not fail. Then a `flush` that can write leaves a file from which a restart loads
  -- exactly the bindings that the calls made of those it began with.
  pub restart_restores :
      (host : Host Doc)
      → ReadsBack host
      → (renames again : Bool) (f : File Doc) (actions : List Action) (now : ℕ)
      → (load host renames f).elements ≡ none
      → lost_by actions false ≡ false
      → (load host again
          (perform host
            (flush true now)
            (perform_all host actions (load host renames f))).file).bindings
        ≡ apply_calls actions (load host renames f).bindings
  unfolding perform Kept
  restart_restores host h renames again f actions now k e =
      let s = perform_all host actions (load host renames f) in
      let kept =
        perform_all-Kept host h actions false (load host renames f)
          (loaded-Kept host renames f k) in
      load-restored host again (when_dirty host true now s).file
      ∙ flushed-restored host h now s (kept.0, λ _. kept.1 e)
      ∙ perform_all-bindings host actions (load host renames f)
