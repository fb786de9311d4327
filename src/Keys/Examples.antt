-- ===== src/Keys/Examples.antt =====
-- A store of one key of src/server/key-store.ts.
use agy_proxy.Prelude.{ℕ, true, false, List, [], ◌∷◌, none, some, Text, codes, eq_text, ◌≡◌, refl}
use agy_proxy.Keys.{
  Host, RawKeyRow, KeyStore, unknown, find_row, find_hash, delete_row, verify, rotate, scopes_of,
  ok, disabled, from_row, prefix_of, plaintext_of, flush_touch,
}
use agy_proxy.Keys.Rows.{Op, updated, scopes_read, perform_all}
use agy_proxy.Keys.Cache.{stored_scopes, scopes_never_stale}
use agy_proxy.Keys.Rotation.{rotate_replaces}
use agy_proxy.Keys.Touches.{touch_all, last_touch, last_used, touches_land}

abbrev host : Host
host = record {
  hash_key = λ t. t;
  seal_secret = λ _ _ t. t;
  open_secret = λ _ t. some t;
  trim = λ t. t;
}

abbrev row : RawKeyRow
row = record {
  id = codes "k";
  name = codes "n";
  key_hash = codes "sk-agy-old";
  prefix = codes "old";
  created_at = 0;
  disabled_at = none;
  daily_token_limit = 0;
  rpm_limit = 0;
  scopes = some (codes "m");
  last_used_at = none;
  secret_enc = none;
}

abbrev store : KeyStore
store = record {
  rows = row ∷ [];
  master_key = none;
  last_written = [];
  touch_pending = [];
  scopes_cache = [];
  db_ok = true;
}

there : find_row (codes "k") store.rows ≡ some row
unfolding find_row eq_text
there = refl

unused : find_hash (host.hash_key (plaintext_of (codes "new"))) store.rows ≡ none
unfolding find_hash eq_text plaintext_of
unused = refl

different :
    eq_text (host.hash_key (plaintext_of (codes "new"))) (host.hash_key (codes "sk-agy-old"))
    ≡ false
unfolding eq_text plaintext_of
different = refl

alone : find_hash (host.hash_key (codes "sk-agy-old")) (delete_row (codes "k") store.rows) ≡ none
unfolding find_hash eq_text delete_row
alone = refl

rotate_replaces_example :
    (verify host (plaintext_of (codes "new")) (rotate host (codes "k") (codes "new") [] store).1
      ≡ elim row.disabled_at [
        | none ↦ ok (record (from_row row) { prefix = prefix_of (plaintext_of (codes "new")) })
        | some t ↦
            disabled (record (from_row row) { prefix = prefix_of (plaintext_of (codes "new")) })
      ])
    × (verify host (codes "sk-agy-old") (rotate host (codes "k") (codes "new") [] store).1
        ≡ unknown)
rotate_replaces_example =
    rotate_replaces host (codes "k") (codes "new") [] (codes "sk-agy-old") store row there unused
      different alone

abbrev ops : List Op
ops =
    scopes_read (codes "k")
    ∷ updated 5 (codes "k") (record {
      name = none;
      disabled = none;
      daily_token_limit = none;
      rpm_limit = none;
      scopes = some (some (codes "x,y"));
    })
    ∷ scopes_read (codes "k")
    ∷ []

scopes_never_stale_example :
    (scopes_of host (codes "k") (perform_all host ops store)).0
    ≡ stored_scopes host (codes "k") (perform_all host ops store)
scopes_never_stale_example = scopes_never_stale host ops store (codes "k") refl

abbrev touches : List (Text × ℕ)
touches = (codes "k", 100000) ∷ (codes "k", 100001) ∷ []

touched_last : last_touch (codes "k") touches ≡ some 100001
unfolding last_touch eq_text
touched_last = refl

touches_land_example : last_used (codes "k") (flush_touch (touch_all touches store)) ≡ some 100001
touches_land_example =
    touches_land touches store (codes "k") row 100001 refl refl there touched_last
