-- ===== src/Sessions/Examples.antt =====
-- A run of the session store on a concrete file.
use agy_proxy.Prelude.{
  true, false, [], ◌∷◌, none, some, codes, get_key, set_key, delete_key, eq_text, List, ◌≡◌, refl,
}
use agy_proxy.Sessions.{
  SessionBinding, Parsed, object, array, parse_error, Host, holds, Action, set, delete, timer_ends,
  flush, load, perform, perform_all, get, load_file, load_parsed, persist, persist_soon, when_dirty,
  warn_throttled, quarantine, empty_store, persist_warn_ms, written,
}
use agy_proxy.Sessions.Restart.{apply_calls, lost_by, lost_after, ReadsBack, restart_restores}

-- A file as what is read from it.
abbrev host : Host Parsed
host = record { parse = λ p. p; stringify = λ m. object m; stringify_array = λ xs. array xs }

host-ReadsBack : ReadsBack host
unfolding ReadsBack
host-ReadsBack = (λ m. refl, λ xs. refl)

abbrev first : SessionBinding
first = record { conversation_id = "c1"; last_message_count = 4; updated_at = 10; model = none }

abbrev second : SessionBinding
second = record {
  conversation_id = "c2";
  last_message_count = 6;
  updated_at = 20;
  model = some "m";
}

abbrev actions : List Action
actions =
    set (codes "a") first ∷ timer_ends false 700 ∷ set (codes "b") second ∷ delete (codes "a") ∷ []

last_write_is_kept : lost_by actions false ≡ false
unfolding lost_by lost_after
last_write_is_kept = refl

no_array : (load host true (holds parse_error)).elements ≡ none
unfolding load load_file load_parsed quarantine empty_store
no_array = refl

restart_restores_example :
    (load host true
      (perform host
        (flush true 900)
        (perform_all host actions (load host true (holds parse_error)))).file).bindings
    ≡ apply_calls actions (load host true (holds parse_error)).bindings
restart_restores_example =
    restart_restores host host-ReadsBack true true (holds parse_error) actions 900 no_array
      last_write_is_kept

found_again :
    get (codes "b") (
      load host true
        (perform host
          (flush true 900)
          (perform_all host actions (load host true (holds parse_error)))).file)
    ≡ some second
unfolding get perform perform_all load load_file load_parsed persist persist_soon when_dirty
    warn_throttled quarantine empty_store get_key set_key delete_key persist_warn_ms eq_text written
found_again = refl
