-- ===== src/Engine/Attempt/Open.antt =====
-- An attempt of src/host/engine.ts never settles the recording of its run.
use agy_proxy.Prelude.{
  ℕ, Bool, true, false, List, [], ◌∷◌, ◌++◌, Option, none, some, String, Text, ◌≡◌, refl, ◌∙◌,
  if◌then◌else◌, codes,
}
use agy_proxy.Mapper.{AgyEvent}
use agy_proxy.Recording.{RunRecording, append}
use agy_proxy.Recording.Log.{append-settled}
use agy_proxy.Parser
use agy_proxy.Parser.Feed.{StreamJsonParser, feed, feed_thrown, flush, new_parser}
use agy_proxy.Engine.{Host, brief}
use agy_proxy.Engine.Attempt.{
  Moment, Attempt, AttemptResult, Intake, take_events, taken, flushed, cid_of, result_cid_of,
  read_chunk, read_chunks, read_output, read_rest, run_agy, attempted, after_wait, spacing_of,
  is_cut_short, run_once, spawn_failed, spawn_failed_abort,
}

take_events-settled :
    (name : AgyEvent → Option Text → Option Text) (events : List AgyEvent)
    (s : Option Text × RunRecording)
    → (take_events name events s).1.settled ≡ s.1.settled
unfolding take_events
take_events-settled name [] s = refl
take_events-settled name (ev ∷ events) s =
    take_events-settled name events (name ev s.0, append ev s.1) ∙ append-settled ev s.1

taken-settled :
    (s : Intake) (thrown : StreamJsonParser) (fed : Option (List AgyEvent × StreamJsonParser))
    → (taken s thrown fed).rec.settled ≡ s.rec.settled
unfolding taken
taken-settled s thrown none = refl
taken-settled s thrown (some (events, parser)) =
    take_events-settled cid_of events (s.stream_cid, s.rec)

read_chunks-settled :
    (host : Parser.Host) (chunks : List Text) (s : Intake)
    → (read_chunks host chunks s).rec.settled ≡ s.rec.settled
unfolding read_chunks read_chunk
read_chunks-settled host [] s = refl
read_chunks-settled host (chunk ∷ chunks) s =
    read_chunks-settled host chunks (read_chunk host chunk s)
    ∙ taken-settled s (feed_thrown host chunk s.parser) (feed host chunk s.parser)

read_output-settled :
    (host : Parser.Host) (chunks : List Text) (rec : RunRecording)
    → (read_output host chunks rec).rec.settled ≡ rec.settled
unfolding read_output
read_output-settled host chunks rec =
    read_chunks-settled host chunks (record { parser = new_parser; stream_cid = none; rec = rec })

-- The recording that an attempt leaves.
abbrev pub Open : Option AttemptResult × RunRecording → Type 0
Open ran = ran.1.settled ≡ false

attempted-Open :
    (host : Host) (timeout_ms : ℕ) (account : Option String) (script : Attempt) (s : Intake)
    (fed : Option (List AgyEvent × StreamJsonParser))
    → s.rec.settled ≡ false
    → Open (attempted host timeout_ms account script s (flushed s fed))
unfolding attempted flushed
attempted-Open host timeout_ms account script s none h = h
attempted-Open host timeout_ms account script s (some (events, parser)) h =
    take_events-settled result_cid_of events (s.stream_cid, s.rec) ∙ h

run_agy-Open :
    (host : Host) (timeout_ms : ℕ) (account : Option String) (script : Attempt) (rec : RunRecording)
    → rec.settled ≡ false
    → Open (run_agy host timeout_ms account script rec)
unfolding run_agy read_rest
run_agy-Open host timeout_ms account script rec h = by_error script.spawn_error
  where
    by_error :
        (e : Option Text)
        → Open (elim e as (λ _. Option AttemptResult × RunRecording) [
          | some t ↦ (some (spawn_failed (codes "failed to spawn agy: " ++ brief t) account), rec)
          | none ↦
              attempted host timeout_ms account script
                (read_output host.parser script.chunks rec)
                (read_rest host.parser (read_output host.parser script.chunks rec))
        ])
    by_error none =
        let s = read_output host.parser script.chunks rec in
        attempted-Open host timeout_ms account script s (flush host.parser s.parser)
          (read_output-settled host.parser script.chunks rec ∙ h)
    by_error (some e) = h

Open-if :
    (b : Bool) (x y : Option AttemptResult × RunRecording)
    → Open x
    → Open y
    → Open (if b then x else y)
Open-if true x y hx hy = hx
Open-if false x y hx hy = hy

after_wait-Open :
    (now : Option Moment) (account : Option String) (rec : RunRecording)
    (run : Option AttemptResult × RunRecording)
    → rec.settled ≡ false
    → Open run
    → Open (after_wait now account rec run)
unfolding after_wait
after_wait-Open none account rec run h k = k
after_wait-Open (some now) account rec run h k =
    Open-if (is_cut_short now rec) (some (spawn_failed_abort now account), rec) run h k

pub run_once-Open :
    (host : Host) (timeout_ms : ℕ) (account : Option String) (script : Attempt) (rec : RunRecording)
    → rec.settled ≡ false
    → Open (run_once host timeout_ms account script rec)
unfolding run_once
run_once-Open host timeout_ms account script rec h =
    let run = run_agy host timeout_ms account script rec in
    let waited = after_wait (spacing_of account script) account rec run in
    Open-if (is_cut_short script.before_spawn rec)
      (some (spawn_failed_abort script.before_spawn account), rec) waited h
      (after_wait-Open (spacing_of account script) account rec run h
        (run_agy-Open host timeout_ms account script rec h))
