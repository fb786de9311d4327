-- ===== src/Tokens.antt =====
-- src/server/tokens.ts and src/server/max-tokens.ts: the token estimate and the output budget.
--
-- The source adds halves and quarters, which floating point does exactly. Here `latin_run` is
-- counted in quarters and the tokens in sixteenths, so `1 + latinRun / 4` is 16 + latin_run.
pub mod Estimate
pub mod Examples
use agy_proxy.Prelude.{
  ℕ, ◌+◌, ◌*◌, ◌/◌, max, Bool, true, false, ◌&&◌, ◌||◌, List, [], ◌∷◌, Option, none, some, Text,
  ltb, leb, ◌==◌, if◌then◌else◌,
}

pub between : ℕ → ℕ → ℕ → Bool
between lo hi c = leb lo c && leb c hi

-- The ranges of `CJK_RE`.
unfoldable pub is_cjk : ℕ → Bool
unfolding between
is_cjk c =
    between 0x3000 0x9fff c
    || between 0x3040 0x30ff c
    || between 0xf900 0xfaff c
    || between 0xff00 0xffef c
    || between 0xac00 0xd7af c

-- What `\s` matches.
unfoldable pub is_space : ℕ → Bool
unfolding between
is_space c =
    between 9 13 c
    || c == 0x20
    || c == 0xa0
    || c == 0x1680
    || between 0x2000 0x200a c
    || between 0x2028 0x2029 c
    || c == 0x202f
    || c == 0x205f
    || c == 0x3000
    || c == 0xfeff

pub data Class : Type 0 where
  other cjk whitespace : Class

-- An entry of the table `CLS`. A code unit that is both counts as CJK.
unfoldable pub class_of : ℕ → Class
unfolding is_cjk is_space
class_of c = if is_cjk c then cjk else if is_space c then whitespace else other

unfoldable pub is_high : ℕ → Bool
is_high c = leb 0xd800 c && ltb c 0xdc00

unfoldable pub is_low : ℕ → Bool
is_low c = leb 0xdc00 c && ltb c 0xe000

-- The loop's variables, tokens and latin_run.
pub record Tally : Type 0 where
  pub tokens : ℕ
  pub latin_run : ℕ

unfoldable pub tally : Class → Tally → Tally
tally cjk t = record { tokens = t.tokens + 16 + t.latin_run; latin_run = 0 }
tally whitespace t = record t { latin_run = t.latin_run + 1 }
tally other t = record t { latin_run = t.latin_run + 4 }

-- The loop over the code units: a surrogate pair is one step.
unfoldable pub walk : Text → Tally → Tally
unfolding tally class_of is_high is_low
walk [] t = t
walk (c ∷ []) t = tally (class_of c) t
walk (c ∷ d ∷ rest) t =
    let pair = walk rest (tally other t) in
    let single = walk (d ∷ rest) (tally (class_of c) t) in
    if is_high c && is_low d then pair else single

unfoldable pub start : Tally
start = record { tokens = 0; latin_run = 0 }

-- `tokens += latinRun / 4; Math.max(1, Math.round(tokens))`
unfoldable pub round_up : Tally → ℕ
round_up t = max 1 ((t.tokens + t.latin_run + 8) / 16)

unfoldable pub estimate_tokens : Text → ℕ
unfolding walk start round_up
estimate_tokens [] = 0
estimate_tokens (c ∷ text) = round_up (walk (c ∷ text) start)

unfoldable pub resolve_effective_max_tokens : Option ℕ → ℕ → Option ℕ
resolve_effective_max_tokens client floor =
    if ltb 0 floor then elim client [ none ↦ some floor | some c ↦ some (max c floor) ] else client
