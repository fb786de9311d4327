-- ===== src/Engine/Request.antt =====
-- The messages of a request in src/host/engine.ts: the digest of the turns that agy has not seen, and
-- the continuation of a run.
use agy_proxy.Prelude.{
  ℕ, zero, suc, ◌+◌, ◌-◌, ◌≤◌, Bool, true, false, ◌||◌, List, [], ◌∷◌, ◌++◌, Option, none, some,
  Text, codes, length, take, drop, ltb, eq_text, if◌then◌else◌, ◌≡◌, refl, arith,
}
use agy_proxy.Recording.CallId.{parse_mirror_call_id, parse-mirror_call_id}
use agy_proxy.Mapper.{mirror_call_id, decimal}

pub data Role : Type 0 where
  user : Role
  assistant : Role
  system : Role
  tool : Role

pub record EngineMessage : Type 0 where
  pub role : Role
  pub text : Text
  pub tool_call_id : Option Text
  pub provider : Option Text

is_system : Role → Bool
is_system system = true
is_system user = false
is_system assistant = false
is_system tool = false

label : Role → Text
label user = codes "User: "
label assistant = codes "Assistant: "
label system = codes "Assistant: "
label tool = codes "Assistant: "

is_skipped : EngineMessage → Bool
unfolding is_system
is_skipped m = is_system m.role || eq_text m.text []

-- The loop from the last message to the first, with the lines so far.
unfoldable pub digest_lines : ℕ → List EngineMessage → List Text → List Text
unfolding is_skipped label
digest_lines budget [] parts = parts
digest_lines budget (m ∷ earlier) parts =
    let line = label m.role ++ m.text in
    let skipped = digest_lines budget earlier parts in
    let longer = digest_lines (budget - length line) earlier (line ∷ parts) in
    if is_skipped m
    then skipped
    else if ltb budget (length line)
    then take budget line ∷ parts
    else longer

reverse_onto : List EngineMessage → List EngineMessage → List EngineMessage
reverse_onto [] done = done
reverse_onto (m ∷ messages) done = reverse_onto messages (m ∷ done)

-- `parts.join('\n\n')`
unfoldable pub join : List Text → Text
join [] = []
join (line ∷ []) = line
join (line ∷ next ∷ lines) = line ++ (10 ∷ 10 ∷ join (next ∷ lines))

framed : List Text → Text
framed [] = []
framed (line ∷ lines) =
    codes "[conversation so far]"
    ++ (10 ∷ join (line ∷ lines))
    ++ (10 ∷ codes "[end of conversation so far]")
    ++ (10 ∷ 10 ∷ [])

unfoldable pub build_digest : List EngineMessage → ℕ → ℕ → Text
unfolding reverse_onto framed
build_digest messages from_idx max_chars =
    framed (digest_lines max_chars (reverse_onto (drop from_idx messages) []) [])

unfoldable pub total_length : List Text → ℕ
total_length [] = 0
total_length (line ∷ lines) = length line + total_length lines

length-take : (n : ℕ) (s : Text) → length (take n s) ≤ n
length-take zero s = ground arith
length-take (suc n) [] = ground arith
length-take (suc n) (c ∷ s) = ground (arith, length-take n s)

digest_lines-fit :
    (budget : ℕ) (messages : List EngineMessage) (parts : List Text)
    → total_length (digest_lines budget messages parts) ≤ budget + total_length parts
unfolding digest_lines total_length
digest_lines-fit budget [] parts = ground arith
digest_lines-fit budget (m ∷ earlier) parts =
    let line = label m.role ++ m.text in
    ground (
      arith,
      digest_lines-fit budget earlier parts,
      length-take budget line,
      digest_lines-fit (budget - length line) earlier (line ∷ parts),
    )

last_message : List EngineMessage → Option EngineMessage
last_message [] = none
last_message (m ∷ []) = some m
last_message (m ∷ n ∷ messages) = last_message (n ∷ messages)

answered_call : EngineMessage → Option Text
answered_call m = elim m.role [
  | tool ↦ m.tool_call_id
  | user ↦ none
  | assistant ↦ none
  | system ↦ none
]

unfoldable pub detect_continuation : (Text → Option ℕ) → List EngineMessage → Option (Text × ℕ)
unfolding last_message answered_call
detect_continuation to_index messages = elim (last_message messages) [
  | none ↦ none
  | some m ↦ elim (answered_call m) [
    | none ↦ none
    | some [] ↦ none
    | some (c ∷ id) ↦ parse_mirror_call_id to_index (c ∷ id)
  ]
]

last_message-append :
    (messages : List EngineMessage) (m : EngineMessage)
    → last_message (messages ++ (m ∷ [])) ≡ some m
unfolding last_message
last_message-append [] m = refl
last_message-append (x ∷ []) m = refl
last_message-append (x ∷ y ∷ messages) m = last_message-append (y ∷ messages) m

-- The lines of a digest together are no longer than its budget.
pub digest_within_budget :
    (messages : List EngineMessage) (max_chars : ℕ)
    → total_length (digest_lines max_chars messages []) ≤ max_chars
unfolding total_length
digest_within_budget messages max_chars = ground (arith, digest_lines-fit max_chars messages [])

-- A request that ends with the answer to a mirrored tool call continues the run and the event that the
-- call was minted for, whatever messages come before, as long as the id of the run is not empty and
-- `Number` reads an index back from its decimal form.
pub detect_continuation-mirror_call_id :
    (to_index : Text → Option ℕ) (messages : List EngineMessage) (text : Text)
    (provider : Option Text) (c : ℕ) (run_id : Text) (n : ℕ)
    → n ≤ 9007199254740991
    → ((k : ℕ) → k ≤ 9007199254740991 → to_index (decimal k) ≡ some k)
    → detect_continuation to_index (
        messages
        ++ (record {
          role = tool;
          text = text;
          tool_call_id = some (mirror_call_id (c ∷ run_id) n);
          provider = provider;
        }
            ∷ []))
      ≡ some (c ∷ run_id, n)
unfolding detect_continuation mirror_call_id answered_call
detect_continuation-mirror_call_id to_index messages text provider c run_id n safe reads =
    let m : EngineMessage = record {
      role = tool;
      text = text;
      tool_call_id = some (mirror_call_id (c ∷ run_id) n);
      provider = provider;
    } in
    rw (detect_continuation, last_message-append messages m)
      (parse-mirror_call_id to_index c run_id n safe reads)
