-- ===== src/Recording/CallId.antt =====
-- `parseMirrorCallId` of src/host/recording.ts, which reads what `mirrorCallId` mints.
use agy_proxy.Prelude.{
  ℕ, zero, suc, ◌+◌, ◌-◌, ◌*◌, ◌/◌, ◌%◌, ◌≤◌, ◌<◌, false, ◌&&◌, [], ◌∷◌, ◌++◌, Option, none, some,
  Text, codes, length, take, drop, ltb, leb, ◌==◌, starts_with, if◌then◌else◌, ◌≡◌, refl, ◌∙◌, ap,
  arith, inl, inr, Bool-cases, All, All-append,
}
use agy_proxy.Mapper.{digits, decimal, mirror_call_id}

-- `text.lastIndexOf(…)` of one code unit.
unfoldable pub last_index_of : ℕ → Text → Option ℕ
last_index_of c [] = none
last_index_of c (x ∷ s) = elim (last_index_of c s) [
  | some i ↦ some (suc i)
  | none ↦ if x == c then some 0 else none
]

with_run : Text → Option ℕ → Option (Text × ℕ)
with_run run_id none = none
with_run run_id (some n) = some (run_id, n)

coordinates : (Text → Option ℕ) → Text → Option ℕ → Option (Text × ℕ)
unfolding with_run
coordinates to_index rest none = none
coordinates to_index rest (some zero) = none
coordinates to_index rest (some (suc i)) =
    with_run (take (suc i) rest) (to_index (drop (suc (suc i)) rest))

-- `to_index` is JavaScript's `Number`, where it gives a safe integer that is not negative.
unfoldable pub parse_mirror_call_id : (Text → Option ℕ) → Text → Option (Text × ℕ)
unfolding coordinates
parse_mirror_call_id to_index call_id =
    let rest = drop 6 call_id in
    if starts_with call_id (codes "agytc-")
    then coordinates to_index rest (last_index_of 45 rest)
    else none

digits-plain : (fuel n : ℕ) → All (λ c. (c == 45) ≡ false) (digits fuel n)
unfolding digits
digits-plain zero n = tt
digits-plain (suc fuel) n = elim (Bool-cases (ltb n 10)) [
  | inl e ↦ rw e (ground (arith, e), tt)
  | inr e ↦ rw e (
      All-append (λ c. (c == 45) ≡ false) (digits fuel (n / 10)) ((48 + n % 10) ∷ [])
        (digits-plain fuel (n / 10)) (ground arith, tt))
]

absent : (c : ℕ) (s : Text) → All (λ x. (x == c) ≡ false) s → last_index_of c s ≡ none
unfolding last_index_of
absent c [] h = refl
absent c (x ∷ s) h = rw (absent c s h.1, h.0) refl

last_index_of-append :
    (a b : Text)
    → All (λ x. (x == 45) ≡ false) b
    → last_index_of 45 (a ++ (45 ∷ b)) ≡ some (length a)
unfolding last_index_of
last_index_of-append [] b h = rw (absent 45 b h) refl
last_index_of-append (x ∷ a) b h = rw (last_index_of-append a b h) refl

take-length : (a b : Text) → take (length a) (a ++ b) ≡ a
take-length [] b = refl
take-length (x ∷ a) b = ap (λ s. x ∷ s) (take-length a b)

drop-length : (a b : Text) (c : ℕ) → drop (suc (length a)) (a ++ (c ∷ b)) ≡ b
drop-length [] b c = refl
drop-length (x ∷ a) b c = drop-length a b c

-- The id of a mirrored call gives back its run and the index of its event, also where the id of the
-- run has hyphens, as long as the id of the run is not empty and `Number` reads an index back from its
-- decimal form.
pub parse-mirror_call_id :
    (to_index : Text → Option ℕ) (c : ℕ) (run_id : Text) (n : ℕ)
    → n ≤ 9007199254740991
    → ((k : ℕ) → k ≤ 9007199254740991 → to_index (decimal k) ≡ some k)
    → parse_mirror_call_id to_index (mirror_call_id (c ∷ run_id) n) ≡ some (c ∷ run_id, n)
unfolding parse_mirror_call_id mirror_call_id starts_with with_run coordinates decimal
parse-mirror_call_id to_index c run_id n safe reads =
    let shape = last_index_of-append (c ∷ run_id) (decimal n) (digits-plain (suc n) n) in
    let rest = c ∷ (run_id ++ (45 ∷ decimal n)) in
    ap (coordinates to_index rest) shape
    ∙ ap (λ run. with_run run (to_index (drop (suc (suc (length run_id))) rest)))
        (take-length (c ∷ run_id) (45 ∷ decimal n))
    ∙ ap (λ t. with_run (c ∷ run_id) (to_index t)) (drop-length (c ∷ run_id) (decimal n) 45)
    ∙ ap (with_run (c ∷ run_id)) (reads n safe)

read_from : ℕ → Text → Option ℕ
read_from acc [] = some acc
read_from acc (c ∷ s) =
    let later = read_from (acc * 10 + (c - 48)) s in if leb 48 c && leb c 57 then later else none

-- What `Number` answers on a text of digits alone.
unfoldable pub read_decimal : Text → Option ℕ
unfolding read_from
read_decimal s = read_from 0 s

read-append :
    (acc m : ℕ) (a b : Text) → read_from acc a ≡ some m → read_from acc (a ++ b) ≡ read_from m b
unfolding read_from
read-append acc m [] b h = ground (arith, h)
read-append acc m (c ∷ a) b h = elim (Bool-cases (leb 48 c && leb c 57)) [
  | inl e ↦ rw e (read-append (acc * 10 + (c - 48)) m a b (ground (arith, h, e)))
  | inr e ↦ absurd (ground (arith, h, e))
]

read-digits : (fuel n : ℕ) → n < fuel → read_from 0 (digits fuel n) ≡ some n
unfolding read_from digits
read-digits zero n h = absurd (ground (arith, h))
read-digits (suc fuel) n h = elim (Bool-cases (ltb n 10)) [
  | inl e ↦ rw e (ground (arith, e))
  | inr e ↦ rw e (
      read-append 0 (n / 10) (digits fuel (n / 10)) ((48 + n % 10) ∷ [])
        (read-digits fuel (n / 10) (ground (arith, h, e)))
      ∙ ground arith)
]

pub read_decimal-decimal : (n : ℕ) → read_decimal (decimal n) ≡ some n
unfolding read_decimal decimal
read_decimal-decimal n = read-digits (suc n) n (ground arith)
