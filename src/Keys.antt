-- ===== src/Keys.antt =====
-- `KeyStore` of src/server/key-store.ts on its table `api_keys`, the rows in the order of creation.
--
-- An id and a secret are random in the source; here they are arguments. An insertion fails while
-- `db_ok` is false or where an id or a hash is there already: then there is no answer. The writes of
-- `touch` and `flush_touch` fail in silence; the other statements are modelled where they succeed.
pub mod Rows
pub mod Cache
pub mod Touches
pub mod Rotation
pub mod Examples
use agy_proxy.Prelude.{
  ℕ, suc, ◌+◌, ◌-◌, Bool, true, false, not, ◌&&◌, ◌||◌, List, [], ◌∷◌, ◌++◌, Option, none, some,
  Text, codes, length, take, drop, ltb, ◌==◌, eq_text, if◌then◌else◌, get_key, set_key, delete_key,
}

-- Node's cryptography and JavaScript's `trim`: the digest of `hashKey`, `sealSecret` under a master key
-- and a random vector, and `openSecret`.
pub record Host : Type 0 where
  pub hash_key : Text → Text
  pub seal_secret : Text → Text → Text → Text
  pub open_secret : Text → Text → Option Text
  pub trim : Text → Text

pub record RawKeyRow : Type 0 where
  pub id : Text
  pub name : Text
  pub key_hash : Text
  pub prefix : Text
  pub created_at : ℕ
  pub disabled_at : Option ℕ
  pub daily_token_limit : ℕ
  pub rpm_limit : ℕ
  pub scopes : Option Text
  pub last_used_at : Option ℕ
  pub secret_enc : Option Text

pub record ApiKeyRecord : Type 0 where
  pub id : Text
  pub name : Text
  pub prefix : Text
  pub created_at : ℕ
  pub disabled_at : Option ℕ
  pub daily_token_limit : ℕ
  pub rpm_limit : ℕ
  pub scopes : Option Text
  pub last_used_at : Option ℕ

pub data KeyVerifyResult : Type 0 where
  ok : ApiKeyRecord → KeyVerifyResult
  unknown : KeyVerifyResult
  disabled : ApiKeyRecord → KeyVerifyResult

pub record KeyStore : Type 0 where
  pub rows : List RawKeyRow
  pub master_key : Option Text
  pub last_written : List (Text × ℕ)
  pub touch_pending : List (Text × ℕ)
  pub scopes_cache : List (Text × Option (List Text))
  pub db_ok : Bool

unfoldable pub from_row : RawKeyRow → ApiKeyRecord
from_row r = record {
  id = r.id;
  name = r.name;
  prefix = r.prefix;
  created_at = r.created_at;
  disabled_at = r.disabled_at;
  daily_token_limit = r.daily_token_limit;
  rpm_limit = r.rpm_limit;
  scopes = r.scopes;
  last_used_at = r.last_used_at;
}

-- `split(/[\n,;]/)`
split_scopes : Text → List Text
split_scopes [] = [] ∷ []
split_scopes (c ∷ s) = start_or_extend c (split_scopes s)
  where
    start_or_extend : ℕ → List Text → List Text
    start_or_extend c [] = (c ∷ []) ∷ []
    start_or_extend c (part ∷ parts) =
        if c == 10 || c == 44 || c == 59 then [] ∷ part ∷ parts else (c ∷ part) ∷ parts

filled_parts : Host → List Text → List Text
filled_parts host [] = []
filled_parts host (part ∷ parts) =
    let rest = filled_parts host parts in
    let trimmed = host.trim part in if eq_text trimmed [] then rest else trimmed ∷ rest

some_filled : List Text → Option (List Text)
some_filled [] = none
some_filled (part ∷ parts) = some (part ∷ parts)

unfoldable pub parse_key_scopes : Host → Option Text → Option (List Text)
unfolding split_scopes filled_parts some_filled
parse_key_scopes host none = none
parse_key_scopes host (some scopes) = some_filled (filled_parts host (split_scopes scopes))

-- The plaintext of a secret, and the prefix that is shown.
unfoldable pub plaintext_of : Text → Text
plaintext_of secret = codes "sk-agy-" ++ secret

unfoldable pub prefix_of : Text → Text
prefix_of plaintext = take 8 (drop 7 plaintext)

unfoldable pub find_row : Text → List RawKeyRow → Option RawKeyRow
find_row id [] = none
find_row id (r ∷ rows) = let later = find_row id rows in if eq_text r.id id then some r else later

unfoldable pub find_hash : Text → List RawKeyRow → Option RawKeyRow
find_hash h [] = none
find_hash h (r ∷ rows) =
    let later = find_hash h rows in if eq_text r.key_hash h then some r else later

-- An update of the row with an id.
unfoldable pub change_row : Text → (RawKeyRow → RawKeyRow) → List RawKeyRow → List RawKeyRow
change_row id f [] = []
change_row id f (r ∷ rows) =
    let later = change_row id f rows in if eq_text r.id id then f r ∷ rows else r ∷ later

unfoldable pub delete_row : Text → List RawKeyRow → List RawKeyRow
delete_row id [] = []
delete_row id (r ∷ rows) =
    let later = delete_row id rows in if eq_text r.id id then rows else r ∷ later

unfoldable pub get : Text → KeyStore → Option ApiKeyRecord
get id s = elim (find_row id s.rows) [ none ↦ none | some r ↦ some (from_row r) ]

unfoldable pub judged : RawKeyRow → KeyVerifyResult
judged r = elim r.disabled_at [ none ↦ ok (from_row r) | some t ↦ disabled (from_row r) ]

unfoldable pub verify : Host → Text → KeyStore → KeyVerifyResult
unfolding judged
verify host plaintext s = elim (find_hash (host.hash_key plaintext) s.rows) [
  | none ↦ unknown
  | some r ↦ judged r
]

unfoldable pub sealed : Host → Text → Text → KeyStore → Option Text
sealed host iv plaintext s = elim s.master_key [
  | none ↦ none
  | some master ↦ some (host.seal_secret master iv plaintext)
]

-- `name?.trim() || otherwise`
name_or : Host → Text → Option Text → Text
name_or host otherwise none = otherwise
name_or host otherwise (some name) =
    if eq_text (host.trim name) [] then otherwise else host.trim name

is_some : Option RawKeyRow → Bool
is_some none = false
is_some (some r) = true

unfoldable pub new_row : Host → ℕ → Text → Text → Text → Option Text → ℕ → ℕ → KeyStore → RawKeyRow
unfolding sealed name_or
new_row host now id secret iv name daily rpm s =
    let plaintext = plaintext_of secret in
    record {
      id = id;
      name = name_or host (codes "default") name;
      key_hash = host.hash_key plaintext;
      prefix = prefix_of plaintext;
      created_at = now;
      disabled_at = none;
      daily_token_limit = daily;
      rpm_limit = rpm;
      scopes = none;
      last_used_at = none;
      secret_enc = sealed host iv plaintext s;
    }

-- The limits are whole numbers, so that `positiveIntOrZero` keeps them.
unfoldable pub create :
    Host → ℕ → Text → Text → Text → Option Text → ℕ → ℕ → KeyStore → Option (Text × KeyStore)
unfolding is_some
create host now id secret iv name daily rpm s =
    let row = new_row host now id secret iv name daily rpm s in
    if not s.db_ok || is_some (find_row id s.rows) || is_some (find_hash row.key_hash s.rows)
    then none
    else some (plaintext_of secret, record s { rows = s.rows ++ (row ∷ []) })

cache_scopes : Host → Text → KeyStore → Option RawKeyRow → Option (List Text) × KeyStore
cache_scopes host id s none = (none, s)
cache_scopes host id s (some r) =
    let parsed = parse_key_scopes host r.scopes in
    (parsed, record s { scopes_cache = set_key id parsed s.scopes_cache })

hit_or :
    KeyStore
    → Option (List Text) × KeyStore
    → Option (Option (List Text))
    → Option (List Text) × KeyStore
hit_or s missed none = missed
hit_or s missed (some hit) = (hit, s)

-- What the engine asks for: the whitelist of a key, from the cache when it is there.
unfoldable pub scopes_of : Host → Text → KeyStore → Option (List Text) × KeyStore
unfolding cache_scopes hit_or
scopes_of host id s =
    hit_or s (cache_scopes host id s (find_row id s.rows)) (get_key id s.scopes_cache)

-- An absent field leaves its value. `scopes` is absent, cleared, or a text.
pub record Patch : Type 0 where
  pub name : Option Text
  pub disabled : Option Bool
  pub daily_token_limit : Option ℕ
  pub rpm_limit : Option ℕ
  pub scopes : Option (Option Text)

patched_disabled : ℕ → Option Bool → Option ℕ → Option ℕ
patched_disabled now none old = old
patched_disabled now (some true) old = some now
patched_disabled now (some false) old = none

patched_scopes : Option (Option Text) → Option Text → Option Text
patched_scopes none old = old
patched_scopes (some none) old = none
patched_scopes (some (some [])) old = none
patched_scopes (some (some (c ∷ s))) old = some (c ∷ s)

or_old : Option ℕ → ℕ → ℕ
or_old none old = old
or_old (some n) old = n

unfoldable pub patched : Host → ℕ → Patch → RawKeyRow → RawKeyRow
unfolding name_or patched_disabled patched_scopes or_old
patched host now patch r = record r {
  name = name_or host r.name patch.name;
  disabled_at = patched_disabled now patch.disabled r.disabled_at;
  daily_token_limit = or_old patch.daily_token_limit r.daily_token_limit;
  rpm_limit = or_old patch.rpm_limit r.rpm_limit;
  scopes = patched_scopes patch.scopes r.scopes;
}

unfoldable pub updated_store : Host → ℕ → Text → Patch → KeyStore → KeyStore
updated_store host now id patch s = record s {
  rows = change_row id (patched host now patch) s.rows;
  scopes_cache = delete_key id s.scopes_cache;
}

unfoldable pub update : Host → ℕ → Text → Patch → KeyStore → Option ApiKeyRecord × KeyStore
update host now id patch s = elim (find_row id s.rows) [
  | none ↦ (none, s)
  | some r ↦ (get id (updated_store host now id patch s), updated_store host now id patch s)
]

unfoldable pub remove : Text → KeyStore → Bool × KeyStore
unfolding is_some
remove id s = (
  is_some (find_row id s.rows),
  record s {
    rows = delete_row id s.rows;
    last_written = delete_key id s.last_written;
    touch_pending = delete_key id s.touch_pending;
    scopes_cache = delete_key id s.scopes_cache;
  },
)

unfoldable pub reveal : Host → Text → KeyStore → Option Text
reveal host id s = elim (find_row id s.rows) [
  | none ↦ none
  | some r ↦ elim r.secret_enc [
    | none ↦ none
    | some blob ↦ elim s.master_key [ none ↦ none | some master ↦ host.open_secret master blob ]
  ]
]

unfoldable pub with_secret : Host → Text → Text → KeyStore → RawKeyRow → RawKeyRow
unfolding sealed
with_secret host plaintext iv s r = record r {
  key_hash = host.hash_key plaintext;
  prefix = prefix_of plaintext;
  secret_enc = sealed host iv plaintext s;
}

unfoldable pub rotated_store : Host → Text → Text → Text → KeyStore → KeyStore
unfolding with_secret
rotated_store host id plaintext iv s = record s {
  rows = change_row id (with_secret host plaintext iv s) s.rows;
}

unfoldable pub rotate : Host → Text → Text → Text → KeyStore → Option Text × KeyStore
rotate host id secret iv s = elim (find_row id s.rows) [
  | none ↦ (none, s)
  | some r ↦ (some (plaintext_of secret), rotated_store host id (plaintext_of secret) iv s)
]

used_at : ℕ → RawKeyRow → RawKeyRow
used_at now r = record r { last_used_at = some now }

unfoldable pub write_touch : Text → ℕ → KeyStore → KeyStore
unfolding used_at
write_touch id now s =
    if s.db_ok
    then record s {
      rows = change_row id (used_at now) s.rows;
      last_written = set_key id now s.last_written;
      touch_pending = delete_key id s.touch_pending;
    }
    else s

or_zero : Option ℕ → ℕ
or_zero none = 0
or_zero (some n) = n

abbrev pub touch_debounce_ms : ℕ
touch_debounce_ms = 60000

unfoldable pub touch : Text → ℕ → KeyStore → KeyStore
unfolding or_zero
touch id now s =
    if ltb (now - or_zero (get_key id s.last_written)) touch_debounce_ms
    then record s { touch_pending = set_key id now s.touch_pending }
    else write_touch id now s

land : List (Text × ℕ) → KeyStore → KeyStore
unfolding used_at
land [] s = s
land ((id, t) ∷ pending) s = land pending (record s {
  rows = change_row id (used_at t) s.rows;
  last_written = set_key id t s.last_written;
})

unfoldable pub flush_touch : KeyStore → KeyStore
unfolding land
flush_touch s = if s.db_ok then record (land s.touch_pending s) { touch_pending = [] } else s
