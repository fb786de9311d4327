-- ===== src/Engine/Busy.antt =====
-- `trackBusy` and `untrackBusy` of src/host/engine.ts: the accounts with runs in flight.
use agy_proxy.Prelude.{
  sym, ltb, ℕ, ◌+◌, ◌-◌, true, false, List, [], ◌∷◌, ◌&&◌, not, Option, none, some, String, str_eq,
  str_eq_iff, if◌then◌else◌, ◌≡◌, refl, ◌==◌, arith, ap,
}
use agy_proxy.Pool.Select.{has}

-- The map `inFlightCount` and the set `busyAccounts`.
pub record Marks : Type 0 where
  pub in_flight_count : List (String × ℕ)
  pub busy_accounts : List String

abbrev pub no_marks : Marks
no_marks = record { in_flight_count = []; busy_accounts = [] }

unfoldable get_count : String → List (String × ℕ) → Option ℕ
get_count id [] = none
get_count id ((k, n) ∷ rest) =
    let later = get_count id rest in if str_eq k id then some n else later

unfoldable set_count : String → ℕ → List (String × ℕ) → List (String × ℕ)
set_count id n [] = (id, n) ∷ []
set_count id n ((k, m) ∷ rest) =
    let later = set_count id n rest in if str_eq k id then (k, n) ∷ rest else (k, m) ∷ later

-- A key stands once in a map, and a member once in a set; here every copy goes.
unfoldable delete_count : String → List (String × ℕ) → List (String × ℕ)
delete_count id [] = []
delete_count id ((k, m) ∷ rest) =
    let later = delete_count id rest in if str_eq k id then later else (k, m) ∷ later

unfoldable delete_busy : String → List String → List String
delete_busy id [] = []
delete_busy id (k ∷ rest) =
    let later = delete_busy id rest in if str_eq k id then later else k ∷ later

unfoldable add_busy : String → List String → List String
add_busy id ids = if has id ids then ids else id ∷ ids

or_number : ℕ → Option ℕ → ℕ
or_number d none = d
or_number d (some n) = n

unfoldable pub track_busy : Option String → Marks → Marks
unfolding or_number get_count set_count add_busy
track_busy none m = m
track_busy (some id) m = record {
  in_flight_count =
      set_count id (or_number 0 (get_count id m.in_flight_count) + 1) m.in_flight_count;
  busy_accounts = add_busy id m.busy_accounts;
}

unfoldable pub untrack_busy : Option String → Marks → Marks
unfolding or_number get_count set_count delete_count delete_busy
untrack_busy none m = m
untrack_busy (some id) m =
    let left = or_number 1 (get_count id m.in_flight_count) - 1 in
    if left == 0
    then record {
      in_flight_count = delete_count id m.in_flight_count;
      busy_accounts = delete_busy id m.busy_accounts;
    }
    else record m { in_flight_count = set_count id left m.in_flight_count }

unfoldable pub in_flight : String → Marks → ℕ
unfolding or_number get_count
in_flight id m = or_number 0 (get_count id m.in_flight_count)

-- How much of the account `j` a mark of the account counts.
unfoldable pub one_of : Option String → String → ℕ
one_of none j = 0
one_of (some id) j = if str_eq id j then 1 else 0

same_key : (k id j : String) → str_eq k id ≡ true → str_eq k j ≡ str_eq id j
same_key k id j e = ap (λ s. str_eq s j) ((str_eq_iff k id).0 e)

other_key : (k id j : String) → str_eq k id ≡ false → str_eq k j ≡ true → str_eq id j ≡ false
other_key k id j e h = ground (arith, e, h, str_eq_iff k j, str_eq_iff id j, str_eq_iff k id)

get-set :
    (id j : String) (n : ℕ) (c : List (String × ℕ))
    → get_count j (set_count id n c) ≡ (if str_eq id j then some n else get_count j c)
unfolding get_count set_count
get-set id j n [] = refl
get-set id j n ((k, m) ∷ c) = ground (arith, get-set id j n c, same_key k id j, other_key k id j)

get-delete :
    (id j : String) (c : List (String × ℕ))
    → get_count j (delete_count id c) ≡ (if str_eq id j then none else get_count j c)
unfolding get_count delete_count
get-delete id j [] = ground arith
get-delete id j ((k, m) ∷ c) = ground (arith, get-delete id j c, same_key k id j, other_key k id j)

has-delete :
    (id j : String) (ids : List String)
    → has j (delete_busy id ids) ≡ (not (str_eq id j) && has j ids)
unfolding has delete_busy
has-delete id j [] = ground arith
has-delete id j (k ∷ ids) = ground (arith, has-delete id j ids, same_key k id j, other_key k id j)

has-add :
    (id j : String) (ids : List String)
    → has j (add_busy id ids) ≡ (if str_eq id j then true else has j ids)
unfolding has add_busy
has-add id j ids = ground (arith, str_eq_iff id j)

pub in_flight-track :
    (a : Option String) (j : String) (m : Marks)
    → in_flight j (track_busy a m) ≡ one_of a j + in_flight j m
unfolding track_busy in_flight one_of or_number
in_flight-track none j m = ground arith
in_flight-track (some id) j m = ground (
  arith,
  str_eq_iff id j,
  get-set id j (or_number 0 (get_count id m.in_flight_count) + 1) m.in_flight_count,
)

pub in_flight-untrack :
    (a : Option String) (j : String) (m : Marks)
    → in_flight j (untrack_busy a m) ≡ in_flight j m - one_of a j
unfolding untrack_busy in_flight one_of or_number
in_flight-untrack none j m = ground arith
in_flight-untrack (some id) j m = ground (
  arith,
  str_eq_iff id j,
  get-set id j (or_number 1 (get_count id m.in_flight_count) - 1) m.in_flight_count,
  get-delete id j m.in_flight_count,
)

busy-track :
    (a : Option String) (j : String) (m : Marks)
    → has j m.busy_accounts ≡ ltb 0 (in_flight j m)
    → has j (track_busy a m).busy_accounts ≡ ltb 0 (in_flight j (track_busy a m))
unfolding track_busy one_of
busy-track none j m h = h
busy-track (some id) j m h =
    ground (arith, h, has-add id j m.busy_accounts, in_flight-track (some id) j m)

busy-untrack :
    (a : Option String) (j : String) (m : Marks)
    → has j m.busy_accounts ≡ ltb 0 (in_flight j m)
    → has j (untrack_busy a m).busy_accounts ≡ ltb 0 (in_flight j (untrack_busy a m))
unfolding untrack_busy in_flight one_of or_number
busy-untrack none j m h = h
busy-untrack (some id) j m h = ground (
  arith,
  h,
  str_eq_iff id j,
  has-delete id j m.busy_accounts,
  get-delete id j m.in_flight_count,
  get-set id j (or_number 1 (get_count id m.in_flight_count) - 1) m.in_flight_count,
)

pub data MarkOp : Type 0 where
  tracked : Option String → MarkOp
  untracked : Option String → MarkOp

unfoldable pub perform_all : List MarkOp → Marks → Marks
perform_all [] m = m
perform_all (tracked a ∷ ops) m = perform_all ops (track_busy a m)
perform_all (untracked a ∷ ops) m = perform_all ops (untrack_busy a m)

-- The marks of one account, counted alone.
unfoldable pub balance : String → List MarkOp → ℕ → ℕ
unfolding one_of
balance j [] n = n
balance j (tracked a ∷ ops) n = balance j ops (one_of a j + n)
balance j (untracked a ∷ ops) n = balance j ops (n - one_of a j)

marks-balance :
    (ops : List MarkOp) (j : String) (m : Marks)
    → has j m.busy_accounts ≡ ltb 0 (in_flight j m)
    → (in_flight j (perform_all ops m) ≡ balance j ops (in_flight j m))
      × (has j (perform_all ops m).busy_accounts ≡ ltb 0 (balance j ops (in_flight j m)))
unfolding perform_all balance
marks-balance [] j m h = (refl, h)
marks-balance (tracked a ∷ ops) j m h =
    rw (sym (in_flight-track a j m)) (marks-balance ops j (track_busy a m) (busy-track a j m h))
marks-balance (untracked a ∷ ops) j m h =
    rw (sym (in_flight-untrack a j m))
      (marks-balance ops j (untrack_busy a m) (busy-untrack a j m h))

-- After any runs that start and end, in any order, each account has as many marks in flight as its
-- starts and ends leave, where an end with no start counts for nothing, and the selection skips it as
-- busy exactly while there are any: runs of other accounts, and a second run of the same one, never
-- change that.
pub busy_while_in_flight :
    (ops : List MarkOp) (j : String)
    → (in_flight j (perform_all ops no_marks) ≡ balance j ops 0)
      × (has j (perform_all ops no_marks).busy_accounts ≡ ltb 0 (balance j ops 0))
unfolding in_flight has
busy_while_in_flight ops j = marks-balance ops j no_marks refl
