-- ===== src/Keys/Rows.antt =====
-- The rows of src/server/key-store.ts after its statements, and sequences of its operations.
use agy_proxy.Prelude.{
  ℕ, false, List, [], ◌∷◌, ◌++◌, Option, none, some, Text, eq_text, if◌then◌else◌, ◌≡◌, refl, arith,
  same_key, other_key,
}
use agy_proxy.Keys.{
  Host, RawKeyRow, KeyStore, Patch, find_row, change_row, delete_row, create, update, remove,
  rotate, scopes_of, touch, flush_touch,
}

unfoldable pub map_row : (RawKeyRow → RawKeyRow) → Option RawKeyRow → Option RawKeyRow
map_row f none = none
map_row f (some r) = some (f r)

pub find_row-change_row :
    (id j : Text) (f : RawKeyRow → RawKeyRow) (rows : List RawKeyRow)
    → ((r : RawKeyRow) → (f r).id ≡ r.id)
    → find_row j (change_row id f rows)
      ≡ (if eq_text id j then map_row f (find_row j rows) else find_row j rows)
unfolding find_row change_row map_row
find_row-change_row id j f [] keeps = ground arith
find_row-change_row id j f (r ∷ rows) keeps =
    ground (
      arith,
      find_row-change_row id j f rows keeps,
      keeps r,
      same_key r.id id j,
      other_key r.id id j,
    )

pub find_row-delete_row :
    (id j : Text) (rows : List RawKeyRow)
    → eq_text id j ≡ false
    → find_row j (delete_row id rows) ≡ find_row j rows
unfolding find_row delete_row
find_row-delete_row id j [] h = refl
find_row-delete_row id j (r ∷ rows) h =
    ground (arith, h, find_row-delete_row id j rows h, same_key r.id id j)

pub find_row-append :
    (j : Text) (rows : List RawKeyRow) (r : RawKeyRow)
    → find_row j (rows ++ (r ∷ []))
      ≡ elim (find_row j rows) [ none ↦ if eq_text r.id j then some r else none | some x ↦ some x ]
unfolding find_row
find_row-append j [] r = refl
find_row-append j (x ∷ rows) r = ground (arith, find_row-append j rows r)

pub data Op : Type 0 where
  created : ℕ → Text → Text → Text → Option Text → ℕ → ℕ → Op
  updated : ℕ → Text → Patch → Op
  removed : Text → Op
  rotated : Text → Text → Text → Op
  scopes_read : Text → Op
  touched : Text → ℕ → Op
  flushed : Op

unfoldable pub or_same : KeyStore → Option (Text × KeyStore) → KeyStore
or_same s none = s
or_same s (some (plaintext, t)) = t

unfoldable pub perform : Host → Op → KeyStore → KeyStore
unfolding or_same
perform host (created now id secret iv name daily rpm) s =
    or_same s (create host now id secret iv name daily rpm s)
perform host (updated now id patch) s = (update host now id patch s).1
perform host (removed id) s = (remove id s).1
perform host (rotated id secret iv) s = (rotate host id secret iv s).1
perform host (scopes_read id) s = (scopes_of host id s).1
perform host (touched id now) s = touch id now s
perform host flushed s = flush_touch s

unfoldable pub perform_all : Host → List Op → KeyStore → KeyStore
perform_all host [] s = s
perform_all host (op ∷ ops) s = perform_all host ops (perform host op s)
