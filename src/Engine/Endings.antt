-- ===== src/Engine/Endings.antt =====
-- How a run of src/host/engine.ts ends: the slot, the busy mark and the recording.
use agy_proxy.Prelude.{
  ℕ, zero, suc, ◌+◌, ◌≤◌, Bool, true, false, Option, none, some, String, Text, leb, if◌then◌else◌,
  ◌≡◌, refl, arith,
}
use agy_proxy.Recording.{RecordingFailure, RunRecording, settle}
use agy_proxy.Engine.{Host}
use agy_proxy.Engine.Busy.{
  Marks, track_busy, untrack_busy, in_flight, one_of, in_flight-track, in_flight-untrack,
}
use agy_proxy.Engine.Attempt.{Attempt, AttemptResult, spawn_failed_abort, is_cut_short, run_once}
use agy_proxy.Engine.Dispatch.{
  Dispatch, Leaves, out_of_fuel, superseded, concluded, throws, max_retries, is_final, fire_run,
  move_to, reselect, conclude_with, after_delay, after_attempt, run_attempts, release_once, Session,
  Ended, never_ends, ended, wind_up, untracked, start, dispatch, internal_error,
}

-- The slot is taken, and of the marks one is the account's.
Held : Marks → Dispatch → Type 0
Held marks d =
    ((j : String) → in_flight j d.marks ≡ one_of d.account j + in_flight j marks)
    × (d.released ≡ false)
    × (d.releases ≡ 0)

abbrev Left : Marks → Leaves → Type 0
Left marks out_of_fuel = ⊥
Left marks (superseded d) = Held marks d × (d.rec.settled ≡ true)
Left marks (concluded last d) = Held marks d
Left marks (throws d) = Held marks d

module _ (marks : Marks) where
  Left-if :
      (b : Bool) (x y : Leaves)
      → (b ≡ true → Left marks x)
      → (b ≡ false → Left marks y)
      → Left marks (if b then x else y)
  Left-if true x y hx hy = hx refl
  Left-if false x y hx hy = hy refl

  fire_run-Held :
      (last : AttemptResult) (attempt : ℕ) (final : Bool) (d : Dispatch)
      → Held marks d
      → Held marks (fire_run last attempt final d)
  unfolding Held fire_run
  fire_run-Held last attempt final d h = h

  conclude_with-Left :
      (script : Attempt) (last : AttemptResult) (attempt : ℕ) (d : Dispatch)
      → Held marks d
      → Left marks (conclude_with script last attempt d)
  unfolding conclude_with Held fire_run
  conclude_with-Left script last attempt d h =
      Left-if script.on_run_throws (throws (fire_run last attempt true d))
        (concluded last (fire_run last attempt true d)) (λ _. h) (λ _. h)

  marked-Held :
      (a : Option String) (d : Dispatch)
      → Held marks d
      → Held marks (record d { account = a; marks = track_busy a (untrack_busy d.account d.marks) })
  unfolding Held
  marked-Held a d h = (
    λ j. omega (
      arith,
      h.0 j,
      in_flight-track a j (untrack_busy d.account d.marks),
      in_flight-untrack d.account j d.marks,
    ),
    h.1,
    h.2,
  )

  move_to-Left :
      (next : Dispatch → Leaves) (last : AttemptResult) (d : Dispatch) (found : Option String)
      → ((e : Dispatch) → Held marks e → Left marks (next e))
      → Held marks d
      → Left marks (move_to next last (untrack_busy d.account d.marks) d found)
  unfolding move_to
  move_to-Left next last d none good h = marked-Held d.account d h
  move_to-Left next last d (some id) good h =
      good
        (record d {
          account = some id;
          marks = track_busy (some id) (untrack_busy d.account d.marks);
        })
        (marked-Held (some id) d h)

  after_delay-Left :
      (next : Dispatch → Leaves) (script : Attempt) (last : AttemptResult) (attempt : ℕ)
      (d : Dispatch)
      → ((e : Dispatch) → Held marks e → Left marks (next e))
      → Held marks d
      → Left marks (after_delay next script last attempt d)
  unfolding after_delay reselect
  after_delay-Left next script last attempt d good h =
      let freed = untrack_busy d.account d.marks in
      let moved = move_to next last freed d (script.select_account freed.busy_accounts) in
      let retried = reselect next script last d in
      let stop =
        conclude_with script (spawn_failed_abort script.after_delay d.account) (suc attempt) d in
      Left-if (is_cut_short script.after_delay d.rec) stop retried
        (λ _.
          conclude_with-Left script (spawn_failed_abort script.after_delay d.account) (suc attempt)
            d h)
        (λ _.
          Left-if script.pool_has_accounts moved (next d)
            (λ _. move_to-Left next last d (script.select_account freed.busy_accounts) good h)
            (λ _. good d h))

  after_attempt-Left :
      (next : Dispatch → Leaves) (script : Attempt) (attempt : ℕ) (d : Dispatch)
      (ran : Option AttemptResult × RunRecording)
      → (leb max_retries attempt ≡ false → (e : Dispatch) → Held marks e → Left marks (next e))
      → Held marks d
      → Left marks (after_attempt next script attempt d ran)
  unfolding after_attempt is_final Held fire_run
  after_attempt-Left next script attempt d (none, rec) good h = h
  after_attempt-Left next script attempt d (some last, rec) good h =
      let d' : Dispatch = record d { rec = rec } in
      let fired = fire_run last attempt false d' in
      let retried = after_delay next script last attempt fired in
      Left-if (is_final last rec attempt script.done) (conclude_with script last attempt d')
        (if script.on_run_throws then throws fired else retried)
        (λ _. conclude_with-Left script last attempt d' h)
        (λ f.
          Left-if script.on_run_throws (throws fired) retried (λ _. h)
            (λ _. after_delay-Left next script last attempt fired (good (ground (arith, f))) h))

run_attempts-Left :
    (host : Host) (world : ℕ → Attempt) (marks : Marks) (timeout_ms fuel attempt : ℕ) (d : Dispatch)
    → suc max_retries ≤ fuel + attempt
    → 1 ≤ fuel
    → Held marks d
    → Left marks (run_attempts host timeout_ms world fuel attempt d)
unfolding run_attempts
run_attempts-Left host world marks timeout_ms zero attempt d enough some_fuel h =
    absurd (ground (arith, some_fuel))
run_attempts-Left host world marks timeout_ms (suc fuel) attempt d enough some_fuel h =
    let next = run_attempts host timeout_ms world fuel (suc attempt) in
    let ran = run_once host timeout_ms d.account (world attempt) d.rec in
    Left-if marks d.rec.settled (superseded d) (after_attempt next (world attempt) attempt d ran)
      (λ s. (h, s))
      (λ _.
        after_attempt-Left marks next (world attempt) attempt d ran
          (λ l e k.
            run_attempts-Left host world marks timeout_ms fuel (suc attempt) e
              (ground (arith, enough, l)) (ground (arith, enough, l)) k)
          h)

-- The slot came back once, the recording is settled, and the accounts are as busy as before.
pub Wound : Marks → Ended → Type 0
Wound marks never_ends = ⊥
Wound marks (ended d effects) =
    (d.releases ≡ 1)
    × (d.rec.settled ≡ true)
    × ((j : String) → in_flight j d.marks ≡ in_flight j marks)

settle-settles : (f : Option RecordingFailure) (rec : RunRecording) → (settle f rec).settled ≡ true
unfolding settle
settle-settles f rec = ground arith

unmarked :
    (marks : Marks) (d : Dispatch)
    → Held marks d
    → (j : String) → in_flight j (untrack_busy d.account d.marks) ≡ in_flight j marks
unfolding Held
unmarked marks d h j = omega (arith, h.0 j, in_flight-untrack d.account j d.marks)

released-once :
    (marks : Marks) (d : Dispatch)
    → Held marks d
    → release_once d ≡ record d { released = true; releases = 1 }
unfolding release_once Held
released-once marks d h = rw (release_once, h.1, h.2) refl

wind_up-Wound :
    (host : Host) (marks : Marks) (session : Session) (keep : Bool) (thrown : Text) (l : Leaves)
    → Left marks l
    → Wound marks (wind_up host session keep thrown l)
unfolding Wound wind_up untracked release_once Held
wind_up-Wound host marks session keep thrown out_of_fuel h = h
wind_up-Wound host marks session keep thrown (superseded d) h =
    rw (released-once marks d h.0) (refl, h.1, unmarked marks d h.0)
wind_up-Wound host marks session keep thrown (concluded last d) h =
    rw (released-once marks d h) (refl, settle-settles last.failure d.rec, unmarked marks d h)
wind_up-Wound host marks session keep thrown (throws d) h =
    rw (released-once marks d h)
      (refl, settle-settles (some (internal_error thrown)) d.rec, unmarked marks d h)

start-Held :
    (rec : RunRecording) (account : Option String) (marks : Marks)
    → Held marks (start rec account marks)
unfolding Held start
start-Held rec account marks = (λ j. in_flight-track account j marks, refl, refl)

-- Every run ends, after two attempts at most, and whatever its attempts gave, whoever gave it up, if a
-- callback or the parser threw or no account was left: the slot of the semaphore is released exactly
-- once, the recording is settled, and every account has as many runs in flight as before the run.
pub dispatch_winds_up :
    (host : Host) (timeout_ms : ℕ) (world : ℕ → Attempt) (session : Session) (keep : Bool)
    (thrown : Text) (rec : RunRecording) (account : Option String) (marks : Marks)
    → Wound marks (dispatch host timeout_ms world session keep thrown rec account marks)
unfolding dispatch
dispatch_winds_up host timeout_ms world session keep thrown rec account marks =
    let d = start rec account marks in
    wind_up-Wound host marks session keep thrown
      (run_attempts host timeout_ms world (suc max_retries) 0 d)
      (run_attempts-Left host world marks timeout_ms (suc max_retries) 0 d (ground arith)
        (ground arith) (start-Held rec account marks))
