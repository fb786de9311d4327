-- ===== src/Recording/Examples.antt =====
-- A registry of two runs and a short log of src/host/recording.ts.
use agy_proxy.Prelude.{◌≤◌, true, List, [], ◌∷◌, some, none, codes, length, ◌≡◌, refl}
use agy_proxy.Mapper.{garbage_event}
use agy_proxy.Recording.{RunRecording, new_recording, event_at, get_event}
use agy_proxy.Recording.Log.{Op, appended, settles, perform_all, indices_are_stable}
use agy_proxy.Recording.Registry.{remember, remember_fits}

abbrev live : RunRecording
live = new_recording (codes "a")

abbrev dead : RunRecording
dead = record (new_recording (codes "b")) { settled = true }

remember_fits_example : length (remember 1 dead (live ∷ [])) ≤ 1
remember_fits_example = remember_fits 1 dead (live ∷ [])

abbrev one_line : RunRecording
one_line = record (new_recording (codes "c")) { events = garbage_event (codes "x") ∷ [] }

line_there : event_at 0 one_line ≡ some (garbage_event (codes "x"))
unfolding event_at get_event
line_there = refl

abbrev ops : List Op
ops =
    appended (garbage_event (codes "y")) ∷ settles none ∷ appended (garbage_event (codes "z")) ∷ []

indices_are_stable_example :
    event_at 0 (perform_all ops one_line) ≡ some (garbage_event (codes "x"))
indices_are_stable_example =
    indices_are_stable ops one_line 0 (garbage_event (codes "x")) line_there
