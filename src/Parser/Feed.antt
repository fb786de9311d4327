-- ===== src/Parser/Feed.antt =====
-- `StreamJsonParser` of src/host/parser.ts. The pending text stands apart from what the lines change.
-- A classification that does not end throws, since the stack overflows: then there is no answer, and
-- `feed_thrown` is the parser that a throwing `feed` leaves.
use agy_proxy.Prelude.{
  ℕ, ◌+◌, Bool, true, false, ◌&&◌, List, [], ◌∷◌, ◌++◌, Option, none, some, Text, length, take,
  drop, ltb, ◌==◌, if◌then◌else◌,
}
use agy_proxy.Mapper.{AgyEvent, garbage_event, result_event}
use agy_proxy.Tokens.{is_space}
use agy_proxy.Parser.{Json, Host}
use agy_proxy.Parser.Classify.{out_of_fuel, ignored, classified, classify_event}

pub record ParserStats : Type 0 where
  pub lines : ℕ
  pub garbage : ℕ
  pub consecutive_garbage : ℕ
  pub auth_url : Option Text
  pub saw_auth_failure : Bool
  pub last_result_error : Option Text
  pub overflow_drops : ℕ

-- What the lines change: the sequence number, the counters and the last lines.
pub record Scanner : Type 0 where
  pub seq : ℕ
  pub stats : ParserStats
  pub recent_lines : List Text

pub record StreamJsonParser : Type 0 where
  pub buffer : Text
  pub scanner : Scanner

abbrev pub max_pending_chars : ℕ
max_pending_chars = 1048576

abbrev pub new_stats : ParserStats
new_stats = record {
  lines = 0;
  garbage = 0;
  consecutive_garbage = 0;
  auth_url = none;
  saw_auth_failure = false;
  last_result_error = none;
  overflow_drops = 0;
}

abbrev pub new_parser : StreamJsonParser
new_parser = record {
  buffer = [];
  scanner = record { seq = 0; stats = new_stats; recent_lines = [] };
}

unfoldable pub truncate_stored : Text → Text
truncate_stored line = if ltb 4000 (length line) then take 4000 line else line

-- `line.trim() === ''`
unfoldable pub is_blank : Text → Bool
unfolding is_space
is_blank [] = true
is_blank (c ∷ line) = is_space c && is_blank line

-- `line.replace(/\r$/, '')`
unfoldable pub strip_return : Text → Text
strip_return [] = []
strip_return (c ∷ []) = if c == 13 then [] else c ∷ []
strip_return (c ∷ d ∷ line) = c ∷ strip_return (d ∷ line)

-- The last 2000 lines, and up to 512 before them.
push_recent : Text → List Text → List Text
unfolding truncate_stored
push_recent line recent =
    let pushed = recent ++ (truncate_stored line ∷ []) in
    if ltb 2512 (length pushed) then drop 512 pushed else pushed

first_url : Option Text → Option Text → Option Text
first_url (some u) found = some u
first_url none found = found

count_garbage : ParserStats → ParserStats
count_garbage s = record s {
  garbage = s.garbage + 1;
  consecutive_garbage = s.consecutive_garbage + 1;
}

-- The counters of a line, before it is parsed.
unfoldable pub note_line : Host → Text → Scanner → Scanner
unfolding push_recent first_url
note_line host line p = record p {
  recent_lines = push_recent line p.recent_lines;
  stats = record p.stats {
    lines = p.stats.lines + 1;
    saw_auth_failure = if host.looks_like_auth_failure line then true else p.stats.saw_auth_failure;
    auth_url = first_url p.stats.auth_url (host.extract_auth_url line);
  };
}

note_result : AgyEvent → ParserStats → ParserStats
note_result (result_event ev) s = record s { last_result_error = ev.error }
note_result _ s = s

-- One call at most follows the first: two rounds of fuel.
unfoldable pub take_parsed : Host → Text → Option Json → Scanner → Option (AgyEvent × Scanner)
unfolding truncate_stored count_garbage note_result
take_parsed host line none p =
    some (garbage_event (truncate_stored line), record p { stats = count_garbage p.stats })
take_parsed host line (some v) p =
    let next : Scanner = record p { seq = p.seq + 1 } in
    elim (classify_event host p.seq 2 v) [
      | out_of_fuel ↦ none
      | ignored ↦ some (garbage_event line, record next { stats = count_garbage p.stats })
      | classified ev ↦
          some (
            ev,
            record next { stats = record (note_result ev p.stats) { consecutive_garbage = 0 } },
          )
    ]

-- The events of a line, none or one.
unfoldable pub take_line : Host → Text → Scanner → Option (List AgyEvent × Scanner)
take_line host line p =
    if is_blank line
    then some ([], p)
    else elim (take_parsed host line (host.parse line) (note_line host line p)) [
      | none ↦ none
      | some (ev, q) ↦ some (ev ∷ [], q)
    ]

unfoldable pub with_head : ℕ → List Text → Text → List Text × Text
with_head c [] rest = ([], c ∷ rest)
with_head c (line ∷ lines) rest = ((c ∷ line) ∷ lines, rest)

-- The complete lines of a text, each without its line feed, and what is left.
unfoldable pub split_lines : Text → List Text × Text
unfolding with_head
split_lines [] = ([], [])
split_lines (c ∷ text) =
    let found = split_lines text in
    if c == 10 then ([] ∷ found.0, found.1) else with_head c found.0 found.1

abbrev pub with_more :
    {A : Type 0} → List AgyEvent → Option (List AgyEvent × A) → Option (List AgyEvent × A)
with_more events none = none
with_more events (some (more, q)) = some (events ++ more, q)

-- Where one step throws, no answer.
abbrev pub and_next :
    {A B : Type 0}
    → Option (List AgyEvent × A)
    → (A → Option (List AgyEvent × B))
    → Option (List AgyEvent × B)
and_next none next = none
and_next (some (events, p)) next = with_more events (next p)

unfoldable pub take_lines : Host → List Text → Scanner → Option (List AgyEvent × Scanner)
unfolding strip_return
take_lines host [] p = some ([], p)
take_lines host (line ∷ lines) p =
    and_next (take_line host (strip_return line) p) (take_lines host lines)

-- A pending text that is too long is dropped.
unfoldable pub settle_pending : Text → Scanner → StreamJsonParser
settle_pending rest p =
    if ltb max_pending_chars (length rest)
    then record {
      buffer = [];
      scanner = record p {
        stats = record p.stats {
          overflow_drops = p.stats.overflow_drops + 1;
          consecutive_garbage = p.stats.consecutive_garbage + 1;
        };
      };
    }
    else record { buffer = rest; scanner = p }

unfoldable pub feed : Host → Text → StreamJsonParser → Option (List AgyEvent × StreamJsonParser)
unfolding split_lines
feed host chunk p =
    let pending = split_lines (p.buffer ++ chunk) in
    elim (take_lines host pending.0 p.scanner) [
      | none ↦ none
      | some (events, q) ↦ some (events, settle_pending pending.1 q)
    ]

-- What a line leaves that throws.
thrown_line : Host → Text → Scanner → Scanner
unfolding note_line
thrown_line host line p = let q = note_line host line p in record q { seq = q.seq + 1 }

-- What the lines leave up to the one that throws.
unfoldable pub thrown_lines : Host → List Text → Scanner → Scanner
unfolding thrown_line
thrown_lines host [] p = p
thrown_lines host (line ∷ lines) p = elim (take_line host (strip_return line) p) [
  | none ↦ thrown_line host (strip_return line) p
  | some (events, q) ↦ thrown_lines host lines q
]

-- The pending text is kept as it was, without the chunk.
unfoldable pub feed_thrown : Host → Text → StreamJsonParser → StreamJsonParser
unfolding thrown_lines
feed_thrown host chunk p = record p {
  scanner = thrown_lines host (split_lines (p.buffer ++ chunk)).0 p.scanner;
}

-- A trailing line without a line feed.
unfoldable pub flush : Host → StreamJsonParser → Option (List AgyEvent × StreamJsonParser)
flush host p = elim (take_line host p.buffer p.scanner) [
  | none ↦ none
  | some (events, q) ↦ some (events, record { buffer = []; scanner = q })
]
