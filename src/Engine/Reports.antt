-- ===== src/Engine/Reports.antt =====
-- What the runs of src/host/engine.ts report through `onRun`.
use agy_proxy.Prelude.{
  ℕ, suc, ◌≤◌, true, false, List, [], ◌∷◌, ◌++◌, none, some, Text, if◌then◌else◌, ◌≡◌, ◌⊎◌, arith,
}
use agy_proxy.Recording.{RunRecording}
use agy_proxy.Engine.{Host}
use agy_proxy.Engine.Attempt.{Attempt, AttemptResult, read_output, read_rest}
use agy_proxy.Engine.Attempt.Open.{Open}
use agy_proxy.Engine.Dispatch.{
  RunInfo, run_info, code_of, message_of, Dispatch, Leaves, out_of_fuel, superseded, concluded,
  throws, max_retries, release_once, Ended, never_ends, ended, internal_error,
}

-- The runs that are reported as final.
unfoldable pub finals : List RunInfo → ℕ
finals [] = 0
finals (r ∷ runs) = let later = finals runs in if r.final then suc later else later

-- Nothing final was reported, and the recording is not settled.
Silent : Dispatch → Type 0
Silent d = (finals d.runs ≡ 0) × (d.rec.settled ≡ false)

-- The last report is the final one, and says what the attempt concluded.
Reported : AttemptResult → Dispatch → Type 0
Reported last d =
    (earlier : List RunInfo) × (attempt : ℕ) × (d.runs
      ≡ earlier ++ (run_info last d.rec attempt true ∷ []))
    × (finals earlier ≡ 0)
    × (d.rec.settled ≡ false)

-- One of the two attempts was rejected: the parser threw on the last line of its output, in the flush.
pub Broken : Host → (ℕ → Attempt) → Type 0
Broken host world =
    (n : ℕ) × (rec : RunRecording) × (n ≤ max_retries)
    × (read_rest host.parser (read_output host.parser (world n).chunks rec) ≡ none)

abbrev Tells : Host → (ℕ → Attempt) → Leaves → Type 0
Tells host world out_of_fuel = ⊥
Tells host world (superseded d) = ⊥
Tells host world (concluded last d) = Reported last d
Tells host world (throws d) = Broken host world × Silent d

-- One report is final, the last one, and it tells what the recording was settled with. Or none is, and
-- the recording was settled with the error that an attempt threw.
pub OneFinal : Host → (ℕ → Attempt) → Text → Ended → Type 0
OneFinal host world thrown never_ends = ⊥
OneFinal host world thrown (ended d effects) =
    ((earlier : List RunInfo) × (r : RunInfo) × (d.runs ≡ earlier ++ (r ∷ []))
      × (finals earlier ≡ 0)
      × (r.final ≡ true)
      × (r.code ≡ code_of d.rec.failure)
      × (r.failure_message ≡ message_of d.rec.failure))
    ⊎ (Broken host world
        × (finals d.runs ≡ 0)
        × (d.rec.failure ≡ some (internal_error thrown))
        × (effects ≡ []))

pub released-runs : (d : Dispatch) → (release_once d).runs ≡ d.runs
unfolding release_once
released-runs d = ground arith
