-- ===== src/Keys/Touches.antt =====
-- The debounced times of use in src/server/key-store.ts.
use agy_proxy.Prelude.{
  ℕ, ◌-◌, Bool, true, false, List, [], ◌∷◌, Option, none, some, Text, eq_text, ltb, if◌then◌else◌,
  ◌≡◌, refl, ap, ◌∙◌, sym, subst, arith, inl, inr, Bool-cases, get_key, set_key, delete_key,
  get-set, get-delete, if-true, if-false, eq_text_iff, eq_text→eq,
}
use agy_proxy.Keys.{
  RawKeyRow, KeyStore, find_row, change_row, touch, write_touch, flush_touch, used_at, land,
  touch_debounce_ms, or_zero,
}
use agy_proxy.Keys.Rows.{map_row, find_row-change_row}

-- A map has each of its keys once.
abbrev Single : List (Text × ℕ) → Type 0
Single [] = Unit
Single ((k, v) ∷ rest) = (get_key k rest ≡ none) × Single rest

if-holds :
    {A : Type 0} (P : A → Type 0) (b : Bool) (x y : A)
    → (b ≡ true → P x)
    → (b ≡ false → P y)
    → P (if b then x else y)
if-holds P true x y hx hy = hx refl
if-holds P false x y hx hy = hy refl

Single-set : (key : Text) (v : ℕ) (c : List (Text × ℕ)) → Single c → Single (set_key key v c)
unfolding set_key get_key
Single-set key v [] h = (refl, tt)
Single-set key v ((k, w) ∷ c) h =
    if-holds Single (eq_text k key) ((k, v) ∷ c) ((k, w) ∷ set_key key v c) (λ _. h)
      (λ e. (
        ground (arith, h.0, e, get-set key k v c, eq_text_iff k key, eq_text_iff key k),
        Single-set key v c h.1,
      ))

Single-delete : (key : Text) (c : List (Text × ℕ)) → Single c → Single (delete_key key c)
unfolding delete_key
Single-delete key [] h = tt
Single-delete key ((k, w) ∷ c) h =
    if-holds Single (eq_text k key) (delete_key key c) ((k, w) ∷ delete_key key c)
      (λ _. Single-delete key c h.1)
      (λ e. (ground (arith, h.0, get-delete key k c), Single-delete key c h.1))

stamped : Option ℕ → RawKeyRow → RawKeyRow
stamped none r = r
stamped (some t) r = record r { last_used_at = some t }

newer : Option ℕ → Option ℕ → Option ℕ
newer (some t) old = some t
newer none old = old

stamped-stamped :
    (new old : Option ℕ) (v : Option RawKeyRow)
    → map_row (stamped new) (map_row (stamped old) v) ≡ map_row (stamped (newer new old)) v
unfolding map_row stamped newer
stamped-stamped new old none = refl
stamped-stamped none old (some r) = refl
stamped-stamped (some t) none (some r) = refl
stamped-stamped (some t) (some u) (some r) = refl

stamped-none : (v : Option RawKeyRow) → map_row (stamped none) v ≡ v
unfolding map_row stamped
stamped-none none = refl
stamped-none (some r) = refl

time_if : Bool → ℕ → Option ℕ
time_if true t = some t
time_if false t = none

changed-row :
    (id j : Text) (t : ℕ) (rows : List RawKeyRow)
    → find_row j (change_row id (used_at t) rows)
      ≡ map_row (stamped (time_if (eq_text id j) t)) (find_row j rows)
unfolding used_at stamped time_if
changed-row id j t rows = elim (Bool-cases (eq_text id j)) [
  | inl e ↦
      find_row-change_row id j (used_at t) rows (λ r. refl)
      ∙ if-true (eq_text id j) _ _ e
      ∙ ap (λ b. map_row (stamped (time_if b t)) (find_row j rows)) (sym e)
  | inr e ↦
      find_row-change_row id j (used_at t) rows (λ r. refl)
      ∙ if-false (eq_text id j) _ _ e
      ∙ sym (stamped-none (find_row j rows))
      ∙ ap (λ b. map_row (stamped (time_if b t)) (find_row j rows)) (sym e)
]

newer-first :
    (b : Bool) (t : ℕ) (v : Option ℕ)
    → (b ≡ true → v ≡ none)
    → newer v (time_if b t) ≡ (if b then some t else v)
unfolding newer time_if
newer-first true t none h = refl
newer-first true t (some u) h = cc (h refl)
newer-first false t none h = refl
newer-first false t (some u) h = refl

if-newer : (b : Bool) (t : ℕ) (v : Option ℕ) → (if b then some t else v) ≡ newer (time_if b t) v
unfolding newer time_if
if-newer true t v = refl
if-newer false t v = refl

newer-dropped :
    (b : Bool) (t : ℕ) (v : Option ℕ)
    → newer (if b then none else v) (time_if b t) ≡ newer (time_if b t) v
unfolding newer time_if
newer-dropped true t v = refl
newer-dropped false t none = refl
newer-dropped false t (some u) = refl

land-stamps :
    (j : Text) (pending : List (Text × ℕ)) (s : KeyStore)
    → Single pending
    → find_row j (land pending s).rows ≡ map_row (stamped (get_key j pending)) (find_row j s.rows)
unfolding land get_key
land-stamps j [] s h = sym (stamped-none (find_row j s.rows))
land-stamps j ((id, t) ∷ pending) s h =
    let next : KeyStore = record s {
      rows = change_row id (used_at t) s.rows;
      last_written = set_key id t s.last_written;
    } in
    land-stamps j pending next h.1
    ∙ ap (map_row (stamped (get_key j pending))) (changed-row id j t s.rows)
    ∙ stamped-stamped (get_key j pending) (time_if (eq_text id j) t) (find_row j s.rows)
    ∙ ap (λ v. map_row (stamped v) (find_row j s.rows))
        (newer-first (eq_text id j) t (get_key j pending)
          (λ e. ap (λ k. get_key k pending) (sym (eq_text→eq id j e)) ∙ h.0))

-- The row of a key, with the time that is pending.
seen : Text → KeyStore → Option RawKeyRow
seen j s = map_row (stamped (get_key j s.touch_pending)) (find_row j s.rows)

abbrev Writes : KeyStore → Type 0
Writes s = (s.db_ok ≡ true) × Single s.touch_pending

seen-buffered :
    (id j : Text) (now : ℕ) (s : KeyStore)
    → seen j (record s { touch_pending = set_key id now s.touch_pending })
      ≡ map_row (stamped (time_if (eq_text id j) now)) (seen j s)
unfolding seen
seen-buffered id j now s =
    ap (λ v. map_row (stamped v) (find_row j s.rows))
      (get-set id j now s.touch_pending ∙ if-newer (eq_text id j) now (get_key j s.touch_pending))
    ∙ sym (
        stamped-stamped (time_if (eq_text id j) now) (get_key j s.touch_pending)
          (find_row j s.rows))

seen-written :
    (id j : Text) (now : ℕ) (s : KeyStore)
    → seen j (record s {
      rows = change_row id (used_at now) s.rows;
      last_written = set_key id now s.last_written;
      touch_pending = delete_key id s.touch_pending;
    })
      ≡ map_row (stamped (time_if (eq_text id j) now)) (seen j s)
unfolding seen
seen-written id j now s =
    ap (map_row (stamped (get_key j (delete_key id s.touch_pending)))) (changed-row id j now s.rows)
    ∙ stamped-stamped (get_key j (delete_key id s.touch_pending)) (time_if (eq_text id j) now)
        (find_row j s.rows)
    ∙ ap (λ v. map_row (stamped v) (find_row j s.rows))
        (ap (λ v. newer v (time_if (eq_text id j) now)) (get-delete id j s.touch_pending)
          ∙ newer-dropped (eq_text id j) now (get_key j s.touch_pending))
    ∙ sym (
        stamped-stamped (time_if (eq_text id j) now) (get_key j s.touch_pending)
          (find_row j s.rows))

touch-seen :
    (id j : Text) (now : ℕ) (s : KeyStore)
    → s.db_ok ≡ true
    → seen j (touch id now s) ≡ map_row (stamped (time_if (eq_text id j) now)) (seen j s)
unfolding touch write_touch
touch-seen id j now s works =
    if-holds (λ t. seen j t ≡ map_row (stamped (time_if (eq_text id j) now)) (seen j s))
      (ltb (now - or_zero (get_key id s.last_written)) touch_debounce_ms)
      (record s { touch_pending = set_key id now s.touch_pending }) (write_touch id now s)
      (λ _. seen-buffered id j now s)
      (λ _. ap (seen j) (if-true s.db_ok _ s works) ∙ seen-written id j now s)

touch-Writes : (id : Text) (now : ℕ) (s : KeyStore) → Writes s → Writes (touch id now s)
unfolding touch write_touch
touch-Writes id now s h =
    if-holds Writes (ltb (now - or_zero (get_key id s.last_written)) touch_debounce_ms)
      (record s { touch_pending = set_key id now s.touch_pending }) (write_touch id now s)
      (λ _. (h.0, Single-set id now s.touch_pending h.1))
      (λ _.
        if-holds Writes s.db_ok
          (record s {
            rows = change_row id (used_at now) s.rows;
            last_written = set_key id now s.last_written;
            touch_pending = delete_key id s.touch_pending;
          })
          s (λ _. (h.0, Single-delete id s.touch_pending h.1)) (λ _. h))

unfoldable pub touch_all : List (Text × ℕ) → KeyStore → KeyStore
touch_all [] s = s
touch_all ((id, now) ∷ touches) s = touch_all touches (touch id now s)

-- The time of the last touch of a key.
unfoldable pub last_touch : Text → List (Text × ℕ) → Option ℕ
unfolding newer time_if
last_touch j [] = none
last_touch j ((id, now) ∷ touches) = newer (last_touch j touches) (time_if (eq_text id j) now)

touch_all-Writes :
    (touches : List (Text × ℕ)) (s : KeyStore) → Writes s → Writes (touch_all touches s)
unfolding touch_all
touch_all-Writes [] s h = h
touch_all-Writes ((id, now) ∷ touches) s h =
    touch_all-Writes touches (touch id now s) (touch-Writes id now s h)

touch_all-seen :
    (j : Text) (touches : List (Text × ℕ)) (s : KeyStore)
    → Writes s
    → seen j (touch_all touches s) ≡ map_row (stamped (last_touch j touches)) (seen j s)
unfolding touch_all last_touch
touch_all-seen j [] s h = sym (stamped-none (seen j s))
touch_all-seen j ((id, now) ∷ touches) s h =
    touch_all-seen j touches (touch id now s) (touch-Writes id now s h)
    ∙ ap (map_row (stamped (last_touch j touches))) (touch-seen id j now s h.0)
    ∙ stamped-stamped (last_touch j touches) (time_if (eq_text id j) now) (seen j s)

flush-seen : (j : Text) (s : KeyStore) → Writes s → find_row j (flush_touch s).rows ≡ seen j s
unfolding flush_touch seen
flush-seen j s h =
    ap (λ t. find_row j t.rows) (if-true s.db_ok _ s h.0) ∙ land-stamps j s.touch_pending s h.1

used_time : Option RawKeyRow → Option ℕ
used_time none = none
used_time (some r) = r.last_used_at

unfoldable pub last_used : Text → KeyStore → Option ℕ
unfolding used_time
last_used j s = used_time (find_row j s.rows)

-- However the touches of the keys are debounced, after the flush a key that was touched has been used
-- last when it was touched last, if the key exists, nothing was pending at first and the writes succeed.
pub touches_land :
    (touches : List (Text × ℕ)) (s : KeyStore) (j : Text) (r : RawKeyRow) (t : ℕ)
    → s.db_ok ≡ true
    → s.touch_pending ≡ []
    → find_row j s.rows ≡ some r
    → last_touch j touches ≡ some t
    → last_used j (flush_touch (touch_all touches s)) ≡ some t
unfolding last_used seen map_row stamped get_key
touches_land touches s j r t works idle found last =
    let h : Writes s = (works, subst Single (sym idle) tt) in
    ap used_time (
      flush-seen j (touch_all touches s) (touch_all-Writes touches s h)
      ∙ touch_all-seen j touches s h
      ∙ ap
          (λ v.
            map_row (stamped (last_touch j touches))
              (map_row (stamped (get_key j s.touch_pending)) v))
          found
      ∙ ap
          (λ p. map_row (stamped (last_touch j touches)) (map_row (stamped (get_key j p)) (some r)))
          idle
      ∙ ap (λ v. map_row (stamped v) (some r)) last)
