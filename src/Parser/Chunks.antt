-- ===== src/Parser/Chunks.antt =====
-- `feed` of src/host/parser.ts over the chunks of one text.
use agy_proxy.Prelude.{
  ℕ, suc, ◌+◌, ◌≤◌, false, List, [], ◌∷◌, ◌++◌, Option, none, some, Text, length, ◌==◌, ◌≡◌, refl,
  ◌∙◌, sym, append_assoc, append-nil, length-append, arith, ap, fun_ext, inl, inr, Bool-cases,
}
use agy_proxy.Mapper.{AgyEvent}
use agy_proxy.Parser.{Host}
use agy_proxy.Parser.Feed.{
  Scanner, StreamJsonParser, max_pending_chars, new_parser, with_head, split_lines, with_more,
  and_next, take_line, take_lines, settle_pending, feed, strip_return,
}

-- The parser after the chunks, with the events of all of them.
unfoldable pub feed_all :
    Host → List Text → StreamJsonParser → Option (List AgyEvent × StreamJsonParser)
feed_all host [] p = some ([], p)
feed_all host (chunk ∷ chunks) p = and_next (feed host chunk p) (feed_all host chunks)

unfoldable pub joined : List Text → Text
joined [] = []
joined (chunk ∷ chunks) = chunk ++ joined chunks

abbrev after_lines : List Text → List Text × Text → List Text × Text
after_lines lines found = (lines ++ found.0, found.1)

with_head-after :
    (c : ℕ) (lines : List Text) (rest b : Text)
    → (c == 10) ≡ false
    → with_head c (lines ++ (split_lines (rest ++ b)).0) (split_lines (rest ++ b)).1
      ≡ after_lines (with_head c lines rest).0 (split_lines ((with_head c lines rest).1 ++ b))
unfolding split_lines with_head
with_head-after c [] rest b h = rw (split_lines, h) refl
with_head-after c (line ∷ lines) rest b h = refl

split_lines-append :
    (a b : Text)
    → split_lines (a ++ b) ≡ after_lines (split_lines a).0 (split_lines ((split_lines a).1 ++ b))
unfolding split_lines
split_lines-append [] b = refl
split_lines-append (c ∷ a) b = elim (Bool-cases (c == 10)) [
  | inl e ↦ rw (split_lines, split_lines-append a b, e) refl
  | inr e ↦
      rw (split_lines, split_lines-append a b, e)
        (with_head-after c (split_lines a).0 (split_lines a).1 b e)
]

with_head-length :
    (c : ℕ) (lines : List Text) (rest : Text)
    → length (with_head c lines rest).1 ≤ suc (length rest)
unfolding with_head
with_head-length c [] rest = ground arith
with_head-length c (line ∷ lines) rest = ground arith

rest_fits : (a : Text) → length (split_lines a).1 ≤ length a
unfolding split_lines
rest_fits [] = ground arith
rest_fits (c ∷ a) =
    ground (arith, rest_fits a, with_head-length c (split_lines a).0 (split_lines a).1)

with_more-append :
    {A : Type 0} (first more : List AgyEvent) (r : Option (List AgyEvent × A))
    → with_more (first ++ more) r ≡ with_more first (with_more more r)
with_more-append first more none = refl
with_more-append first more (some (es, q)) = ap (λ all. some (all, q)) (append_assoc first more es)

and_next-with_more :
    {A B : Type 0} (events : List AgyEvent) (r : Option (List AgyEvent × A))
    (g : A → Option (List AgyEvent × B))
    → and_next (with_more events r) g ≡ with_more events (and_next r g)
and_next-with_more events none g = refl
and_next-with_more events (some (more, q)) g = with_more-append events more (g q)

and_next_assoc :
    {A B C : Type 0} (r : Option (List AgyEvent × A)) (f : A → Option (List AgyEvent × B))
    (g : B → Option (List AgyEvent × C))
    → and_next (and_next r f) g ≡ and_next r (λ p. and_next (f p) g)
and_next_assoc none f g = refl
and_next_assoc (some (events, p)) f g = and_next-with_more events (f p) g

with_more-nothing : {A : Type 0} (r : Option (List AgyEvent × A)) → with_more [] r ≡ r
with_more-nothing none = refl
with_more-nothing (some (more, q)) = refl

take_lines-append :
    (host : Host) (a b : List Text) (p : Scanner)
    → take_lines host (a ++ b) p ≡ and_next (take_lines host a p) (take_lines host b)
unfolding take_lines
take_lines-append host [] b p = sym (with_more-nothing (take_lines host b p))
take_lines-append host (line ∷ a) b p =
    let first = take_line host (strip_return line) p in
    ap (and_next first) (fun_ext (λ q. take_lines-append host a b q))
    ∙ sym (and_next_assoc first (take_lines host a) (take_lines host b))

with_head-rest :
    (c : ℕ) (lines : List Text) (rest : Text)
    → (c == 10) ≡ false
    → split_lines rest ≡ ([], rest)
    → split_lines (with_head c lines rest).1 ≡ ([], (with_head c lines rest).1)
unfolding split_lines with_head
with_head-rest c [] rest h ih = rw (split_lines, ih, h) refl
with_head-rest c (line ∷ lines) rest h ih = ih

-- The rest of a text has no line feed.
rest_is_rest : (a : Text) → split_lines (split_lines a).1 ≡ ([], (split_lines a).1)
unfolding split_lines
rest_is_rest [] = refl
rest_is_rest (c ∷ a) = elim (Bool-cases (c == 10)) [
  | inl e ↦ rw e (rest_is_rest a)
  | inr e ↦ rw e (with_head-rest c (split_lines a).0 (split_lines a).1 e (rest_is_rest a))
]

-- `feed` where the pending text is not too long.
abbrev with_rest :
    Text → Option (List AgyEvent × Scanner) → Option (List AgyEvent × StreamJsonParser)
with_rest rest none = none
with_rest rest (some (events, q)) = some (events, record { buffer = rest; scanner = q })

abbrev run : Host → Text → Scanner → Option (List AgyEvent × StreamJsonParser)
run host text p = with_rest (split_lines text).1 (take_lines host (split_lines text).0 p)

settle-fits :
    (rest : Text) (q : Scanner)
    → length rest ≤ max_pending_chars
    → settle_pending rest q ≡ record { buffer = rest; scanner = q }
unfolding settle_pending
settle-fits rest q h = ground (arith, h)

settle-with_rest :
    (rest : Text) (r : Option (List AgyEvent × Scanner))
    → length rest ≤ max_pending_chars
    → elim r [ none ↦ none | some (events, q) ↦ some (events, settle_pending rest q) ]
      ≡ with_rest rest r
settle-with_rest rest none h = refl
settle-with_rest rest (some (events, q)) h = ap (λ p. some (events, p)) (settle-fits rest q h)

feed-run :
    (host : Host) (chunk : Text) (p : StreamJsonParser)
    → length (p.buffer ++ chunk) ≤ max_pending_chars
    → feed host chunk p ≡ run host (p.buffer ++ chunk) p.scanner
unfolding feed
feed-run host chunk p h =
    let text = p.buffer ++ chunk in
    settle-with_rest (split_lines text).1 (take_lines host (split_lines text).0 p.scanner)
      (omega (arith, h, rest_fits text))

with_rest-with_more :
    (last : Text) (events : List AgyEvent) (r : Option (List AgyEvent × Scanner))
    → with_rest last (with_more events r) ≡ with_more events (with_rest last r)
with_rest-with_more last events none = refl
with_rest-with_more last events (some (more, q)) = refl

with_rest-then :
    (rest last : Text) (r : Option (List AgyEvent × Scanner))
    (next : Scanner → Option (List AgyEvent × Scanner))
    → with_rest last (and_next r next)
      ≡ and_next (with_rest rest r) (λ q. with_rest last (next q.scanner))
with_rest-then rest last none next = refl
with_rest-then rest last (some (events, p)) next = with_rest-with_more last events (next p)

run-append :
    (host : Host) (a b : Text) (p : Scanner)
    → run host (a ++ b) p
      ≡ and_next (run host a p) (λ q. run host ((split_lines a).1 ++ b) q.scanner)
run-append host a b p =
    let later = split_lines ((split_lines a).1 ++ b) in
    ap (λ s. with_rest s.1 (take_lines host s.0 p)) (split_lines-append a b)
    ∙ ap (with_rest later.1) (take_lines-append host (split_lines a).0 later.0 p)
    ∙ with_rest-then (split_lines a).1 later.1 (take_lines host (split_lines a).0 p)
        (take_lines host later.0)

and_next-with_rest :
    (rest : Text) (r : Option (List AgyEvent × Scanner))
    (f g : StreamJsonParser → Option (List AgyEvent × StreamJsonParser))
    → ((q : Scanner)
        → f (record { buffer = rest; scanner = q }) ≡ g (record { buffer = rest; scanner = q }))
    → and_next (with_rest rest r) f ≡ and_next (with_rest rest r) g
and_next-with_rest rest none f g h = refl
and_next-with_rest rest (some (events, q)) f g h = ap (with_more events) (h q)

feed_all-run :
    (host : Host) (chunks : List Text) (p : StreamJsonParser)
    → split_lines p.buffer ≡ ([], p.buffer)
    → length p.buffer + length (joined chunks) ≤ max_pending_chars
    → feed_all host chunks p ≡ run host (p.buffer ++ joined chunks) p.scanner
unfolding feed_all joined take_lines
feed_all-run host [] p own h = sym (
    ap (λ s. with_rest s.1 (take_lines host s.0 p.scanner))
      (ap split_lines (append-nil p.buffer) ∙ own))
feed_all-run host (chunk ∷ chunks) p own h =
    let here = p.buffer ++ chunk in
    let later = joined chunks in
    let room : length here + length later ≤ max_pending_chars =
      omega (arith, h, length-append p.buffer chunk, length-append chunk later) in
    let rest = (split_lines here).1 in
    let fits : length rest + length later ≤ max_pending_chars =
      omega (arith, room, rest_fits here) in
    ap (λ r. and_next r (feed_all host chunks)) (feed-run host chunk p (omega (arith, room)))
    ∙ and_next-with_rest rest (take_lines host (split_lines here).0 p.scanner)
        (feed_all host chunks) (λ q. run host (rest ++ later) q.scanner)
        (λ q.
          feed_all-run host chunks (record { buffer = rest; scanner = q }) (rest_is_rest here) fits)
    ∙ sym (run-append host here later p.scanner)
    ∙ ap (λ text. run host text p.scanner) (append_assoc p.buffer chunk later)

-- Where a text cuts into chunks does not matter: a new parser that is fed the chunks one after the
-- other gives the same events and ends in the same state as one that is fed the whole text, or both
-- throw, if the text is no longer than the bound on the pending text.
pub feed_in_chunks :
    (host : Host) (chunks : List Text)
    → length (joined chunks) ≤ max_pending_chars
    → feed_all host chunks new_parser ≡ feed host (joined chunks) new_parser
unfolding split_lines
feed_in_chunks host chunks h =
    feed_all-run host chunks new_parser refl (omega (arith, h))
    ∙ sym (feed-run host (joined chunks) new_parser h)
