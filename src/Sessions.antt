-- ===== src/Sessions.antt =====
-- `SessionStore` of src/host/sessions.ts with its file.
--
-- `Doc` is the text of a file; the two functions of `Host` stand for JavaScript's JSON. A write
-- goes to a temporary file that is renamed, so one that fails leaves the file as it was.
mod Restart
mod Arrays
mod Examples
use agy_proxy.Prelude.{
  ℕ, suc, Bool, true, false, not, List, [], ◌∷◌, Option, none, some, String, Text, ◌-◌, get_key,
  set_key, delete_key, if◌then◌else◌, ltb,
}

pub record SessionBinding : Type 0 where
  conversation_id : String
  last_message_count : ℕ
  updated_at : ℕ
  model : Option String

-- What `JSON.parse` answers: an object, an array, which counts as one, another value, or an error.
pub data Parsed : Type 0 where
  object : List (Text × SessionBinding) → Parsed
  array : List SessionBinding → Parsed
  other_shape : Parsed
  parse_error : Parsed

pub record Host (Doc : Type 0) : Type 0 where
  parse : Doc → Parsed
  stringify : List (Text × SessionBinding) → Doc
  stringify_array : List SessionBinding → Doc

pub data File (Doc : Type 0) : Type 0 where
  absent : File Doc
  unreadable : File Doc
  holds : Doc → File Doc

unfoldable pub persist_warn_ms : ℕ
persist_warn_ms = 60000

-- `data` is an array with `elements` or an object without. The engine's keys have a colon, so that none
-- is an index: they name properties of either, `bindings`.
pub record SessionStore (Doc : Type 0) : Type 0 where
  bindings : List (Text × SessionBinding)
  elements : Option (List SessionBinding)
  persist_dirty : Bool
  persist_timer : Bool
  last_persist_warn : ℕ
  warnings : ℕ
  file : File Doc

-- What happens to a store: a call, or the end of the timer. A write succeeds or fails, at a time.
pub data Action : Type 0 where
  set : Text → SessionBinding → Action
  delete : Text → Action
  clear : Action
  timer_ends : Bool → ℕ → Action
  flush : Bool → ℕ → Action

module _ {Doc : Type 0} where
  unfoldable pub empty_store : File Doc → SessionStore Doc
  empty_store f = record {
    bindings = [];
    elements = none;
    persist_dirty = false;
    persist_timer = false;
    last_persist_warn = 0;
    warnings = 0;
    file = f;
  }

  -- The file is renamed where that succeeds; both ways one message is logged.
  unfoldable pub quarantine : Bool → SessionStore Doc → SessionStore Doc
  quarantine renames s = record s {
    file = if renames then absent else s.file;
    warnings = suc s.warnings;
  }

  unfoldable pub load_parsed : Bool → Parsed → SessionStore Doc → SessionStore Doc
  load_parsed renames (object v) s = record s { bindings = v }
  load_parsed renames (array xs) s = record s { elements = some xs }
  load_parsed renames other_shape s = quarantine renames s
  load_parsed renames parse_error s = quarantine renames s

  unfoldable pub load_file : Host Doc → Bool → File Doc → SessionStore Doc → SessionStore Doc
  load_file host renames absent s = s
  load_file host renames unreadable s = quarantine renames s
  load_file host renames (holds doc) s = load_parsed renames (host.parse doc) s

  -- The constructor.
  unfoldable pub load : Host Doc → Bool → File Doc → SessionStore Doc
  load host renames f = load_file host renames f (empty_store f)

  unfoldable pub get : Text → SessionStore Doc → Option SessionBinding
  get key s = get_key key s.bindings

  unfoldable pub persist_soon : SessionStore Doc → SessionStore Doc
  persist_soon s = record s { persist_dirty = true; persist_timer = true }

  unfoldable pub warn_throttled : ℕ → SessionStore Doc → SessionStore Doc
  warn_throttled now s =
      if ltb persist_warn_ms (now - s.last_persist_warn)
      then record s { last_persist_warn = now; warnings = suc s.warnings }
      else s

  -- `JSON.stringify` leaves out the named properties of an array.
  unfoldable pub written : Host Doc → SessionStore Doc → Doc
  written host s = elim (s.elements) [
    | none ↦ host.stringify s.bindings
    | some xs ↦ host.stringify_array xs
  ]

  unfoldable pub persist : Host Doc → Bool → ℕ → SessionStore Doc → SessionStore Doc
  persist host writes now s =
      let t = record s { persist_dirty = false; persist_timer = false } in
      if writes then record t { file = holds (written host t) } else warn_throttled now t

  unfoldable pub when_dirty : Host Doc → Bool → ℕ → SessionStore Doc → SessionStore Doc
  when_dirty host writes now s = if s.persist_dirty then persist host writes now s else s

  -- A timer that is not set does not end.
  unfoldable pub perform : Host Doc → Action → SessionStore Doc → SessionStore Doc
  perform host (set key b) s = persist_soon (record s { bindings = set_key key b s.bindings })
  perform host (delete key) s = persist_soon (record s { bindings = delete_key key s.bindings })
  perform host clear s = persist_soon (record s { bindings = []; elements = none })
  perform host (timer_ends writes now) s =
      if s.persist_timer then when_dirty host writes now (record s { persist_timer = false }) else s
  perform host (flush writes now) s = when_dirty host writes now s

  unfoldable pub perform_all : Host Doc → List Action → SessionStore Doc → SessionStore Doc
  perform_all host [] s = s
  perform_all host (a ∷ rest) s = perform_all host rest (perform host a s)
