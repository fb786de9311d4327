-- ===== src/Guards/Holdback.antt =====
-- What the holdback of src/server/stream-guards.ts lets through.
use agy_proxy.Prelude.{
  subst, ℕ, zero, suc, ◌-◌, ◌≡◌, refl, sym, ◌∙◌, ap, inl, inr, List, [], ◌∷◌, ◌++◌, Option, none,
  some, Text, length, take, drop, index_of, index_of-split, arith, ltb, Bool-cases, Option-cases,
}
use mathlib.Core.List.{append-nil, append_assoc}
use agy_proxy.Guards.{
  StopHoldback, Hit, better, earliest_from, earliest_match, hold_from, emit, drain, push, close,
  new_holdback,
}

take-append-drop : (n : ℕ) (xs : Text) → take n xs ++ drop n xs ≡ xs
take-append-drop zero xs = refl
take-append-drop (suc n) [] = refl
take-append-drop (suc n) (x ∷ xs) = ap (λ r. x ∷ r) (take-append-drop n xs)

-- The text before the match, the stop, and the rest.
abbrev Cuts : Text → Hit → Type 0
Cuts text hit = (rest : Text) × (text ≡ take hit.index text ++ (hit.stop ++ rest))

better-Cuts :
    (text s : Text) (best : Option Hit) (hit : Hit)
    → ((h : Hit) → best ≡ some h → Cuts text h)
    → better best s (index_of text s) ≡ some hit
    → Cuts text hit
unfolding better
better-Cuts text s best hit old e = elim (Option-cases (index_of text s)) [
  | inl q ↦ old hit (ground (arith, e, q))
  | inr (i, q) ↦ elim (Option-cases best) [
    | inl b ↦
        let new_hit : record { index = i; stop = s } ≡ hit = ground (arith, e, q, b) in
        subst (Cuts text) new_hit (drop (length s) (drop i text), index_of-split text s i q)
    | inr (h, b) ↦ elim (Bool-cases (ltb i h.index)) [
      | inl l ↦
          let new_hit : record { index = i; stop = s } ≡ hit = ground (arith, e, q, b, l) in
          subst (Cuts text) new_hit (drop (length s) (drop i text), index_of-split text s i q)
      | inr l ↦
          let old_hit : h ≡ hit = ground (arith, e, q, b, l) in subst (Cuts text) old_hit (old h b)
    ]
  ]
]

earliest_from-Cuts :
    (stops : List Text) (text : Text) (best : Option Hit) (hit : Hit)
    → ((h : Hit) → best ≡ some h → Cuts text h)
    → earliest_from text best stops ≡ some hit
    → Cuts text hit
unfolding earliest_from
earliest_from-Cuts [] text best hit old e = old hit e
earliest_from-Cuts (s ∷ rest) text best hit old e =
    earliest_from-Cuts rest text (better best s (index_of text s)) hit
      (λ h q. better-Cuts text s best h old q) e

earliest-Cuts :
    (stops : List Text) (text : Text) (hit : Hit)
    → earliest_from text none stops ≡ some hit
    → Cuts text hit
earliest-Cuts stops text hit e = earliest_from-Cuts stops text none hit (λ h q. cc) e

-- The output so far against the text so far.
abbrev pub Conserves : Text → Text → Option Text → Text → Type 0
Conserves text out none held = out ++ held ≡ text
Conserves text out (some s) held = (rest : Text) × (text ≡ out ++ (s ++ rest))

-- The same after a step that has answered `r.0`.
abbrev Goes : Text → Text → Text × StopHoldback → Type 0
Goes text out r = Conserves text (out ++ r.0) r.1.matched r.1.buffer

emit-Goes :
    (text out : Text) (cut : ℕ) (h : StopHoldback)
    → h.matched ≡ none
    → out ++ h.buffer ≡ text
    → Goes text out (emit cut h)
unfolding emit
emit-Goes text out cut h m e = rw m (
    append_assoc out (take cut h.buffer) (drop cut h.buffer)
    ∙ ap (λ b. out ++ b) (take-append-drop cut h.buffer)
    ∙ e)

matched-Goes :
    (text out buffer : Text) (hit : Hit)
    → Cuts buffer hit
    → out ++ buffer ≡ text
    → (rest : Text) × (text ≡ (out ++ take hit.index buffer) ++ (hit.stop ++ rest))
matched-Goes text out buffer hit (rest, q) e = (
  rest,
  sym e ∙ ap (λ b. out ++ b) q ∙ sym (append_assoc out (take hit.index buffer) (hit.stop ++ rest)),
)

drain-Goes :
    (text out : Text) (h : StopHoldback)
    → h.matched ≡ none
    → out ++ h.buffer ≡ text
    → Goes text out (drain h)
unfolding drain earliest_match emit
drain-Goes text out h m e = elim (Option-cases (earliest_from h.buffer none h.stops)) [
  | inl q ↦
      rw (drain, q) (emit-Goes text out (length h.buffer - hold_from h.buffer 0 h.stops) h m e)
  | inr (hit, q) ↦
      rw (drain, q) (matched-Goes text out h.buffer hit (earliest-Cuts h.stops h.buffer hit q) e)
]

more_text :
    (text out delta s rest : Text)
    → text ≡ out ++ (s ++ rest)
    → text ++ delta ≡ (out ++ []) ++ (s ++ (rest ++ delta))
more_text text out delta s rest q =
    ap (λ t. t ++ delta) q
    ∙ append_assoc out (s ++ rest) delta
    ∙ ap (λ t. out ++ t) (append_assoc s rest delta)
    ∙ ap (λ o. o ++ (s ++ (rest ++ delta))) (sym (append-nil out))

push-Goes :
    (text out delta : Text) (h : StopHoldback)
    → Conserves text out h.matched h.buffer
    → Goes (text ++ delta) out (push delta h)
unfolding push
push-Goes text out delta h c = elim (Option-cases h.matched) [
  | inl m ↦
      let whole : out ++ (h.buffer ++ delta) ≡ text ++ delta =
        sym (append_assoc out h.buffer delta)
        ∙ ap (λ b. b ++ delta) (subst (λ o. Conserves text out o h.buffer) m c) in
      rw (push, m)
        (drain-Goes (text ++ delta) out (record h { buffer = h.buffer ++ delta }) m whole)
  | inr (s, m) ↦
      let (rest, q) = subst (λ o. Conserves text out o h.buffer) m c in
      rw (push, m, m) (rest ++ delta, more_text text out delta s rest q)
]

close-Goes :
    (text out : Text) (h : StopHoldback)
    → Conserves text out h.matched h.buffer
    → Conserves text (out ++ (close h).0) (close h).1.matched (close h).1.buffer
      × ((close h).1.matched ≡ none → (close h).1.buffer ≡ [])
unfolding close earliest_match
close-Goes text out h c = elim (Option-cases h.matched) [
  | inl m ↦
      let whole = subst (λ o. Conserves text out o h.buffer) m c in
      elim (Option-cases (earliest_from h.buffer none h.stops)) [
        | inl q ↦
            rw (close, earliest_match, m, q, m) (append-nil (out ++ h.buffer) ∙ whole, λ e. refl)
        | inr (hit, q) ↦
            rw (close, earliest_match, m, q)
              (
                matched-Goes text out h.buffer hit (earliest-Cuts h.stops h.buffer hit q) whole,
                λ e. cc,
              )
      ]
  | inr (s, m) ↦
      let (rest, q) = subst (λ o. Conserves text out o h.buffer) m c in
      rw (close, m, m) ((rest, q ∙ ap (λ o. o ++ (s ++ rest)) (sym (append-nil out))), λ e. cc)
]

settle :
    (text out : Text) (h : StopHoldback)
    → Conserves text out h.matched h.buffer × (h.matched ≡ none → h.buffer ≡ [])
    → Conserves text out h.matched []
settle text out h (c, done) = elim (Option-cases h.matched) [
  | inl m ↦
      rw m (subst (λ b. out ++ b ≡ text) (done m) (subst (λ o. Conserves text out o h.buffer) m c))
  | inr (s, m) ↦ rw m (subst (λ o. Conserves text out o h.buffer) m c)
]

-- A whole stream: the deltas in turn, then the close.
abbrev pub concat : List Text → Text
concat [] = []
concat (d ∷ deltas) = d ++ concat deltas

unfoldable pub feed : List Text → Text → StopHoldback → Text × StopHoldback
feed [] out h = (out, h)
feed (d ∷ deltas) out h = feed deltas (out ++ (push d h).0) (push d h).1

unfoldable pub stream : List Text → List Text → Text × Option Text
stream stops deltas =
    let fed = feed deltas [] (new_holdback stops) in
    (fed.0 ++ (close fed.1).0, (close fed.1).1.matched)

pub feed-Conserves :
    (deltas : List Text) (text out : Text) (h : StopHoldback)
    → Conserves text out h.matched h.buffer
    → Goes (text ++ concat deltas) [] (feed deltas out h)
unfolding feed
feed-Conserves [] text out h c = rw (append-nil text) c
feed-Conserves (d ∷ deltas) text out h c =
    subst (λ t. Goes t [] (feed deltas (out ++ (push d h).0) (push d h).1))
      (append_assoc text d (concat deltas))
      (feed-Conserves deltas (text ++ d) (out ++ (push d h).0) (push d h).1
        (push-Goes text out d h c))

-- A stream answers the whole text of its deltas when no stop has matched, and otherwise a beginning
-- of that text which the matched stop follows: nothing is lost, doubled or reordered, however the
-- text is split into deltas.
pub stream-Conserves :
    (stops deltas : List Text)
    → Conserves (concat deltas) (stream stops deltas).0 (stream stops deltas).1 []
unfolding stream new_holdback
stream-Conserves stops deltas =
    let fed = feed deltas [] (new_holdback stops) in
    let closed =
      close-Goes (concat deltas) fed.0 fed.1
        (feed-Conserves deltas [] [] (new_holdback stops) refl) in
    settle (concat deltas) (fed.0 ++ (close fed.1).0) (close fed.1).1 closed
