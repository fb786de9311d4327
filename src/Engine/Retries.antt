-- ===== src/Engine/Retries.antt =====
-- When an attempt of src/host/engine.ts is repeated.
use agy_proxy.Prelude.{
  if-true, if-false, ℕ, suc, Bool, true, false, List, Option, none, some, String, Text,
  if◌then◌else◌, ◌≡◌, refl, ◌∙◌, ap, arith, sym,
}
use agy_proxy.Recording.{RunRecording, has_client_mapped_events}
use agy_proxy.Engine.{Host}
use agy_proxy.Engine.Busy.{Marks, track_busy, untrack_busy}
use agy_proxy.Engine.Attempt.{
  Moment, Attempt, AttemptResult, spawn_failed_abort, is_cut_short, run_once,
}
use agy_proxy.Engine.Dispatch.{
  run_info, Dispatch, Leaves, superseded, concluded, throws, max_retries, can_retry, is_final,
  fire_run, move_to, reselect, conclude_with, after_delay, after_attempt, run_attempts, Session,
  Ended, never_ends, ended, wind_up, untracked, start, dispatch,
}
use agy_proxy.Engine.Reports.{finals, released-runs}

served_is_final :
    (last : AttemptResult) (rec : RunRecording) (attempt : ℕ) (now : Moment)
    → has_client_mapped_events rec ≡ true
    → is_final last rec attempt now ≡ true
unfolding is_final can_retry
served_is_final last rec attempt now h = ground (arith, h)

after_attempt-final :
    (next : Dispatch → Leaves) (script : Attempt) (attempt : ℕ) (d : Dispatch)
    (last : AttemptResult) (rec : RunRecording)
    → is_final last rec attempt script.done ≡ true
    → after_attempt next script attempt d (some last, rec)
      ≡ conclude_with script last attempt (record d { rec = rec })
unfolding after_attempt
after_attempt-final next script attempt d last rec h =
    let d' : Dispatch = record d { rec = rec } in
    let fired = fire_run last attempt false d' in
    if-true (is_final last rec attempt script.done) (conclude_with script last attempt d')
      (if script.on_run_throws then throws fired else after_delay next script last attempt fired) h

-- The first round of the loop, where its attempt has to be the last one.
single_round :
    (host : Host) (timeout_ms fuel : ℕ) (world : ℕ → Attempt) (script : Attempt) (d : Dispatch)
    (last : AttemptResult) (rec : RunRecording)
    → world 0 ≡ script
    → run_once host timeout_ms d.account script d.rec ≡ (some last, rec)
    → has_client_mapped_events rec ≡ true
    → run_attempts host timeout_ms world (suc fuel) 0 d ≡ (
        if d.rec.settled
        then superseded d
        else conclude_with script last 0 (record d { rec = rec }))
unfolding run_attempts
single_round host timeout_ms fuel world script d last rec same ran served =
    let next = run_attempts host timeout_ms world fuel 1 in
    ap (λ l. if d.rec.settled then superseded d else l)
      (ap (λ s. after_attempt next s 0 d (run_once host timeout_ms d.account s d.rec)) same
        ∙ ap (after_attempt next script 0 d) ran
        ∙ after_attempt-final next script 0 d last rec
            (served_is_final last rec 0 script.done served))

-- An attempt whose recording has something for the client is never repeated: the run that it belongs
-- to does not depend on what would have happened later.
pub served_run_is_not_repeated :
    (host : Host) (timeout_ms : ℕ) (world other : ℕ → Attempt) (session : Session) (keep : Bool)
    (thrown : Text) (rec : RunRecording) (account : Option String) (marks : Marks)
    (last : AttemptResult) (after : RunRecording)
    → run_once host timeout_ms account (world 0) rec ≡ (some last, after)
    → has_client_mapped_events after ≡ true
    → other 0 ≡ world 0
    → dispatch host timeout_ms other session keep thrown rec account marks
      ≡ dispatch host timeout_ms world session keep thrown rec account marks
unfolding dispatch start
served_run_is_not_repeated host timeout_ms world other session keep thrown rec account marks last
      after ran served same =
    let d = start rec account marks in
    ap (wind_up host session keep thrown) (
      single_round host timeout_ms max_retries other (world 0) d last after same ran served
      ∙ sym (single_round host timeout_ms max_retries world (world 0) d last after refl ran served))

pub reported_finals : Ended → Option ℕ
reported_finals never_ends = none
reported_finals (ended d effects) = some (finals d.runs)

dry_retry :
    (next : Dispatch → Leaves) (script : Attempt) (d : Dispatch) (last : AttemptResult)
    (rec : RunRecording)
    → is_final last rec 0 script.done ≡ false
    → script.on_run_throws ≡ false
    → is_cut_short script.after_delay rec ≡ false
    → script.pool_has_accounts ≡ true
    → ((ids : List String) → script.select_account ids ≡ none)
    → (m : Marks) × (after_attempt next script 0 d (some last, rec)
        ≡ concluded last (record (fire_run last 0 false (record d { rec = rec })) { marks = m }))
unfolding after_attempt after_delay reselect move_to fire_run
dry_retry next script d last rec retried calm live pool dry =
    let d' : Dispatch = record d { rec = rec } in
    let fired = fire_run last 0 false d' in
    let freed = untrack_busy d.account d.marks in
    let moved = move_to next last freed fired (script.select_account freed.busy_accounts) in
    let later = reselect next script last fired in
    (
      track_busy d.account freed,
      if-false (is_final last rec 0 script.done) (conclude_with script last 0 d')
            (if script.on_run_throws then throws fired else after_delay next script last 0 fired)
            retried
          ∙ if-false script.on_run_throws (throws fired) (after_delay next script last 0 fired) calm
          ∙ if-false (is_cut_short script.after_delay rec)
              (conclude_with script (spawn_failed_abort script.after_delay d.account) 1 fired) later
              live
          ∙ if-true script.pool_has_accounts moved (next fired) pool
          ∙ ap (move_to next last freed fired) (dry freed.busy_accounts),
    )

concluded-finals :
    (host : Host) (session : Session) (keep : Bool) (thrown : Text) (last : AttemptResult)
    (d : Dispatch)
    → reported_finals (wind_up host session keep thrown (concluded last d)) ≡ some (finals d.runs)
unfolding reported_finals wind_up untracked
concluded-finals host session keep thrown last d = ap (λ runs. some (finals runs)) (released-runs d)

-- If an attempt can be repeated, and the pool has accounts but none that can be selected for the
-- retry, the run ends and reports no attempt as final.
pub final_run_is_lost :
    (host : Host) (timeout_ms : ℕ) (world : ℕ → Attempt) (session : Session) (keep : Bool)
    (thrown : Text) (rec : RunRecording) (account : Option String) (marks : Marks)
    (last : AttemptResult) (after : RunRecording)
    → rec.settled ≡ false
    → run_once host timeout_ms account (world 0) rec ≡ (some last, after)
    → is_final last after 0 (world 0).done ≡ false
    → (world 0).on_run_throws ≡ false
    → is_cut_short (world 0).after_delay after ≡ false
    → (world 0).pool_has_accounts ≡ true
    → ((ids : List String) → (world 0).select_account ids ≡ none)
    → reported_finals (dispatch host timeout_ms world session keep thrown rec account marks)
      ≡ some 0
unfolding dispatch run_attempts start finals run_info fire_run
final_run_is_lost host timeout_ms world session keep thrown rec account marks last after unsettled
      ran retried calm live pool dry =
    let d = start rec account marks in
    let next = run_attempts host timeout_ms world max_retries 1 in
    let lost = dry_retry next (world 0) d last after retried calm live pool dry in
    ap (λ l. reported_finals (wind_up host session keep thrown l))
      (if-false rec.settled (superseded d)
          (after_attempt next (world 0) 0 d (run_once host timeout_ms account (world 0) rec))
          unsettled
        ∙ ap (after_attempt next (world 0) 0 d) ran
        ∙ lost.1)
    ∙ concluded-finals host session keep thrown last
        (record (fire_run last 0 false (record d { rec = after })) { marks = lost.0 })
