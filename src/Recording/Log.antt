-- ===== src/Recording/Log.antt =====
-- The event log of src/host/recording.ts over appends and settlements.
use agy_proxy.Prelude.{ℕ, zero, suc, List, [], ◌∷◌, ◌++◌, Option, some, ◌≡◌, arith, refl}
use agy_proxy.Mapper.{AgyEvent, init_event, step_event, result_event, garbage_event}
use agy_proxy.Recording.{RunRecording, RecordingFailure, note, append, settle, get_event, event_at}

pub data Op : Type 0 where
  appended : AgyEvent → Op
  settles : Option RecordingFailure → Op

unfoldable pub perform_all : List Op → RunRecording → RunRecording
perform_all [] r = r
perform_all (appended ev ∷ ops) r = perform_all ops (append ev r)
perform_all (settles f ∷ ops) r = perform_all ops (settle f r)

get-append :
    (events more : List AgyEvent) (i : ℕ) (ev : AgyEvent)
    → get_event events i ≡ some ev
    → get_event (events ++ more) i ≡ some ev
unfolding get_event
get-append [] more i ev h = cc
get-append (x ∷ events) more zero ev h = h
get-append (x ∷ events) more (suc i) ev h = get-append events more i ev h

note-settled : (ev : AgyEvent) (r : RunRecording) → (note ev r).settled ≡ r.settled
unfolding note
note-settled (result_event _) r = refl
note-settled (step_event _) r = refl
note-settled (init_event _) r = refl
note-settled (garbage_event _) r = refl

pub append-settled : (ev : AgyEvent) (r : RunRecording) → (append ev r).settled ≡ r.settled
unfolding append
append-settled ev r = ground (arith, note-settled ev r)

append-keeps :
    (e : AgyEvent) (r : RunRecording) (i : ℕ) (ev : AgyEvent)
    → event_at i r ≡ some ev
    → event_at i (append e r) ≡ some ev
unfolding append event_at
append-keeps e r i ev h = ground (arith, h, get-append r.events (e ∷ []) i ev h)

settle-keeps :
    (f : Option RecordingFailure) (r : RunRecording) (i : ℕ) (ev : AgyEvent)
    → event_at i r ≡ some ev
    → event_at i (settle f r) ≡ some ev
unfolding settle event_at
settle-keeps f r i ev h = ground (arith, h)

-- An event keeps its index: once it is recorded at an index, it is found there after any appends and
-- settlements, whether or not the log is full or the run has settled.
pub indices_are_stable :
    (ops : List Op) (r : RunRecording) (i : ℕ) (ev : AgyEvent)
    → event_at i r ≡ some ev
    → event_at i (perform_all ops r) ≡ some ev
unfolding perform_all
indices_are_stable [] r i ev h = h
indices_are_stable (appended e ∷ ops) r i ev h =
    indices_are_stable ops (append e r) i ev (append-keeps e r i ev h)
indices_are_stable (settles f ∷ ops) r i ev h =
    indices_are_stable ops (settle f r) i ev (settle-keeps f r i ev h)
