-- ===== src/Sessions/Arrays.antt =====
-- A session store of src/host/sessions.ts whose file holds an array.
use agy_proxy.Prelude.{
  ℕ, Bool, true, false, List, [], ◌∷◌, none, some, ◌≡◌, refl, ap, ◌∙◌, arith, suc, subst, sym,
  if◌then◌else◌, ltb, ◌-◌,
}
use agy_proxy.Sessions.{
  SessionBinding, array, Host, holds, SessionStore, Action, set, delete, clear, timer_ends, flush,
  load_parsed, load_file, load, empty_store, persist_soon, warn_throttled, persist, written,
  when_dirty, perform, perform_all, persist_warn_ms,
}
use agy_proxy.Sessions.Restart.{ReadsBack, restored, load-restored}

-- Whether the calls empty the store.
unfoldable pub clears : List Action → Bool
clears [] = false
clears (set key b ∷ rest) = clears rest
clears (delete key ∷ rest) = clears rest
clears (clear ∷ rest) = true
clears (timer_ends writes now ∷ rest) = clears rest
clears (flush writes now ∷ rest) = clears rest

module _ {Doc : Type 0} where
  -- The data is an array, and so is what the file holds.
  Arrayed : Host Doc → SessionStore Doc → Type 0
  Arrayed host s =
      ((xs : List SessionBinding) × (s.elements ≡ some xs)) × (restored host s.file ≡ [])

  Arrayed-if :
      (host : Host Doc) (b : Bool) (s t : SessionStore Doc)
      → Arrayed host s
      → Arrayed host t
      → Arrayed host (if b then s else t)
  Arrayed-if host true s t hs ht = hs
  Arrayed-if host false s t hs ht = ht

  array-restored :
      (host : Host Doc)
      → ReadsBack host
      → (s : SessionStore Doc) (xs : List SessionBinding) → s.elements ≡ some xs
      → restored host (holds (written host s)) ≡ []
  unfolding written restored load load_file load_parsed empty_store ReadsBack
  array-restored host h s xs there =
      ap
        (λ e. restored host (
          holds (elim e as (λ _. Doc) [
            | none ↦ host.stringify s.bindings
            | some ys ↦ host.stringify_array ys
          ])))
        there
      ∙ ap (λ p. (load_parsed true p (empty_store (holds (host.stringify_array xs)))).bindings)
          (h.1 xs)

  persist-Arrayed :
      (host : Host Doc)
      → ReadsBack host
      → (writes : Bool) (now : ℕ) (s : SessionStore Doc) → Arrayed host s
      → Arrayed host (persist host writes now s)
  unfolding persist warn_throttled Arrayed written
  persist-Arrayed host h true now s ((xs, there), read) =
      ((xs, there), array-restored host h s xs there)
  persist-Arrayed host h false now s k =
      let t : SessionStore Doc = record s { persist_dirty = false; persist_timer = false } in
      Arrayed-if host (ltb persist_warn_ms (now - s.last_persist_warn))
        (record t { last_persist_warn = now; warnings = suc s.warnings }) t k k

  when_dirty-Arrayed :
      (host : Host Doc)
      → ReadsBack host
      → (writes : Bool) (now : ℕ) (s : SessionStore Doc) → Arrayed host s
      → Arrayed host (when_dirty host writes now s)
  unfolding when_dirty
  when_dirty-Arrayed host h writes now s k =
      Arrayed-if host s.persist_dirty (persist host writes now s) s
        (persist-Arrayed host h writes now s k) k

  perform_all-Arrayed :
      (host : Host Doc)
      → ReadsBack host
      → (actions : List Action) (s : SessionStore Doc) → clears actions ≡ false
      → Arrayed host s
      → Arrayed host (perform_all host actions s)
  unfolding perform_all perform persist_soon clears Arrayed
  perform_all-Arrayed host h [] s c k = k
  perform_all-Arrayed host h (set key b ∷ rest) s c k =
      perform_all-Arrayed host h rest (perform host (set key b) s) c k
  perform_all-Arrayed host h (delete key ∷ rest) s c k =
      perform_all-Arrayed host h rest (perform host (delete key) s) c k
  perform_all-Arrayed host h (clear ∷ rest) s c k = absurd (ground (arith, c))
  perform_all-Arrayed host h (timer_ends writes now ∷ rest) s c k =
      let t : SessionStore Doc = record s { persist_timer = false } in
      perform_all-Arrayed host h rest (perform host (timer_ends writes now) s) c (
        Arrayed-if host s.persist_timer (when_dirty host writes now t) s
          (when_dirty-Arrayed host h writes now t k) k)
  perform_all-Arrayed host h (flush writes now ∷ rest) s c k =
      perform_all-Arrayed host h rest (perform host (flush writes now) s) c
        (when_dirty-Arrayed host h writes now s k)

  parsed-Arrayed :
      (host : Host Doc) (doc : Doc) (xs : List SessionBinding)
      → host.parse doc ≡ array xs
      → restored host (holds doc) ≡ []
  unfolding restored load load_file load_parsed empty_store
  parsed-Arrayed host doc xs e = ap (λ p. (load_parsed true p (empty_store (holds doc))).bindings) e

  loaded-Arrayed :
      (host : Host Doc) (renames : Bool) (doc : Doc) (xs : List SessionBinding)
      → host.parse doc ≡ array xs
      → Arrayed host (load host renames (holds doc))
  unfolding Arrayed load load_file load_parsed empty_store
  loaded-Arrayed host renames doc xs e =
      subst (λ p. Arrayed host (load_parsed renames p (empty_store (holds doc)))) (sym e)
        ((xs, refl), parsed-Arrayed host doc xs e)

  -- Where JSON reads back what it writes, a store whose file holds an array loses every binding: as
  -- long as no call clears it, whatever is set and written, and after a flush, a restart finds none.
  pub array_forgets :
      (host : Host Doc)
      → ReadsBack host
      → (renames again writes : Bool) (doc : Doc) (xs : List SessionBinding) (actions : List Action)
        (now : ℕ)
      → host.parse doc ≡ array xs
      → clears actions ≡ false
      → (load host again
          (perform host
            (flush writes now)
            (perform_all host actions (load host renames (holds doc)))).file).bindings
        ≡ []
  unfolding perform Arrayed
  array_forgets host h renames again writes doc xs actions now e c =
      let s = perform_all host actions (load host renames (holds doc)) in
      let k = when_dirty-Arrayed host h writes now s (
        perform_all-Arrayed host h actions (load host renames (holds doc)) c
          (loaded-Arrayed host renames doc xs e)) in
      load-restored host again (when_dirty host writes now s).file ∙ k.1
