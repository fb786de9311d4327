-- ===== src/Keys/Cache.antt =====
-- The cache of the whitelists in src/server/key-store.ts.
use agy_proxy.Prelude.{
  ℕ, Bool, true, false, not, ◌||◌, List, [], ◌∷◌, ◌++◌, Option, none, some, Text, eq_text,
  if◌then◌else◌, ◌≡◌, refl, ap, ◌∙◌, sym, subst, arith, inl, inr, Bool-cases, Option-cases, get_key,
  set_key, delete_key, get-set, get-delete, if-true, if-false, eq_text→eq, ltb, ◌-◌,
}
use agy_proxy.Keys.{
  Host, RawKeyRow, KeyStore, Patch, find_row, find_hash, change_row, create, update, remove, rotate,
  scopes_of, cache_scopes, hit_or, new_row, updated_store, rotated_store, ApiKeyRecord, get, touch,
  write_touch, flush_touch, is_some, patched, with_secret, used_at, land, parse_key_scopes,
  plaintext_of, touch_debounce_ms, or_zero,
}
use agy_proxy.Keys.Rows.{
  map_row, find_row-change_row, find_row-delete_row, find_row-append, Op, created, updated, removed,
  rotated, scopes_read, touched, flushed, or_same, perform, perform_all,
}

-- What the row of a key says, without the cache.
unfoldable pub stored_scopes : Host → Text → KeyStore → Option (List Text)
stored_scopes host id s = elim (find_row id s.rows) [
  | none ↦ none
  | some r ↦ parse_key_scopes host r.scopes
]

-- A cached whitelist is the one of the row.
Fresh : Host → KeyStore → Text → Type 0
Fresh host s j =
    (hit : Option (List Text))
    → get_key j s.scopes_cache ≡ some hit
    → (r : RawKeyRow) × (find_row j s.rows ≡ some r) × (hit ≡ parse_key_scopes host r.scopes)

-- The row of a key stays, with its whitelist.
Stays : KeyStore → KeyStore → Text → Type 0
Stays s t j =
    (r : RawKeyRow)
    → find_row j s.rows ≡ some r
    → (r' : RawKeyRow) × (find_row j t.rows ≡ some r') × (r'.scopes ≡ r.scopes)

Stays-Fresh :
    (host : Host) (s t : KeyStore) (j : Text)
    → t.scopes_cache ≡ s.scopes_cache
    → Stays s t j
    → Fresh host s j
    → Fresh host t j
unfolding Fresh Stays
Stays-Fresh host s t j same stays fresh hit h =
    let (r, found, e) = fresh hit (ap (get_key j) (sym same) ∙ h) in
    let (r', found', e') = stays r found in (r', found', e ∙ ap (parse_key_scopes host) (sym e'))

dropped-Fresh :
    (host : Host) (s t : KeyStore) (id j : Text)
    → t.scopes_cache ≡ delete_key id s.scopes_cache
    → (eq_text id j ≡ false → find_row j t.rows ≡ find_row j s.rows)
    → Fresh host s j
    → Fresh host t j
unfolding Fresh
dropped-Fresh host s t id j same rows fresh hit h =
    let cached = ap (get_key j) (sym same) ∙ h in
    elim (Bool-cases (eq_text id j)) [
      | inl e ↦ absurd (ground (arith, e, cached, get-delete id j s.scopes_cache))
      | inr e ↦
          let (r, found, k) = fresh hit (
            sym (if-false (eq_text id j) none (get_key j s.scopes_cache) e)
            ∙ sym (get-delete id j s.scopes_cache)
            ∙ cached) in
          (r, rows e ∙ found, k)
    ]

changed-Stays :
    (s t : KeyStore) (id j : Text) (f : RawKeyRow → RawKeyRow)
    → t.rows ≡ change_row id f s.rows
    → ((r : RawKeyRow) → (f r).id ≡ r.id)
    → ((r : RawKeyRow) → (f r).scopes ≡ r.scopes)
    → Stays s t j
unfolding Stays map_row
changed-Stays s t id j f same ids scopes r found =
    let now = ap (find_row j) same ∙ find_row-change_row id j f s.rows ids in
    elim (Bool-cases (eq_text id j)) [
      | inl e ↦ (f r, now ∙ if-true (eq_text id j) _ _ e ∙ ap (map_row f) found, scopes r)
      | inr e ↦ (r, now ∙ if-false (eq_text id j) _ _ e ∙ found, refl)
    ]

same-Stays : (s t : KeyStore) (j : Text) → t.rows ≡ s.rows → Stays s t j
unfolding Stays
same-Stays s t j same r found = (r, ap (find_row j) same ∙ found, refl)

land-Fresh :
    (host : Host) (j : Text) (pending : List (Text × ℕ)) (s : KeyStore)
    → Fresh host s j
    → Fresh host (land pending s) j
unfolding land used_at
land-Fresh host j [] s fresh = fresh
land-Fresh host j ((id, t) ∷ pending) s fresh =
    let next : KeyStore = record s {
      rows = change_row id (used_at t) s.rows;
      last_written = set_key id t s.last_written;
    } in
    land-Fresh host j pending next (
      Stays-Fresh host s next j refl
        (changed-Stays s next id j (used_at t) refl (λ r. refl) (λ r. refl)) fresh)

Fresh-if :
    (host : Host) (j : Text) (b : Bool) (s t : KeyStore)
    → Fresh host s j
    → Fresh host t j
    → Fresh host (if b then s else t) j
Fresh-if host j true s t hs ht = hs
Fresh-if host j false s t hs ht = ht

write_touch-Fresh :
    (host : Host) (j id : Text) (now : ℕ) (s : KeyStore)
    → Fresh host s j
    → Fresh host (write_touch id now s) j
unfolding write_touch used_at
write_touch-Fresh host j id now s fresh =
    let next : KeyStore = record s {
      rows = change_row id (used_at now) s.rows;
      last_written = set_key id now s.last_written;
      touch_pending = delete_key id s.touch_pending;
    } in
    Fresh-if host j s.db_ok next s
      (Stays-Fresh host s next j refl
        (changed-Stays s next id j (used_at now) refl (λ r. refl) (λ r. refl)) fresh)
      fresh

touch-Fresh :
    (host : Host) (j id : Text) (now : ℕ) (s : KeyStore)
    → Fresh host s j
    → Fresh host (touch id now s) j
unfolding touch
touch-Fresh host j id now s fresh =
    let buffered : KeyStore = record s { touch_pending = set_key id now s.touch_pending } in
    Fresh-if host j (ltb (now - or_zero (get_key id s.last_written)) touch_debounce_ms) buffered
      (write_touch id now s)
      (Stays-Fresh host s buffered j refl (same-Stays s buffered j refl) fresh)
      (write_touch-Fresh host j id now s fresh)

flush-Fresh :
    (host : Host) (j : Text) (s : KeyStore) → Fresh host s j → Fresh host (flush_touch s) j
unfolding flush_touch
flush-Fresh host j s fresh =
    let landed = land s.touch_pending s in
    let cleared : KeyStore = record landed { touch_pending = [] } in
    Fresh-if host j s.db_ok cleared s
      (Stays-Fresh host landed cleared j refl (same-Stays landed cleared j refl)
        (land-Fresh host j s.touch_pending s fresh))
      fresh

cached-Fresh :
    (host : Host) (j id : Text) (s : KeyStore) (v : Option RawKeyRow)
    → find_row id s.rows ≡ v
    → Fresh host s j
    → Fresh host (cache_scopes host id s v).1 j
unfolding cache_scopes Fresh
cached-Fresh host j id s none found fresh = fresh
cached-Fresh host j id s (some r) found fresh = λ hit h.
    let parsed = parse_key_scopes host r.scopes in
    elim (Bool-cases (eq_text id j)) [
      | inl e ↦
          let named = eq_text→eq id j e in
          (
            r,
            subst (λ k. find_row k s.rows ≡ some r) named found,
            ground (arith, h, get-set id j parsed s.scopes_cache, e),
          )
      | inr e ↦ fresh hit (ground (arith, h, get-set id j parsed s.scopes_cache, e))
    ]

scopes_of-Fresh :
    (host : Host) (j id : Text) (s : KeyStore)
    → Fresh host s j
    → Fresh host (scopes_of host id s).1 j
unfolding scopes_of hit_or
scopes_of-Fresh host j id s fresh = by_hit (get_key id s.scopes_cache)
  where
    by_hit :
        (hit : Option (Option (List Text)))
        → Fresh host (hit_or s (cache_scopes host id s (find_row id s.rows)) hit).1 j
    by_hit none = cached-Fresh host j id s (find_row id s.rows) refl fresh
    by_hit (some hit) = fresh

create-Fresh :
    (host : Host) (j : Text) (now : ℕ) (id secret iv : Text) (name : Option Text) (daily rpm : ℕ)
    (s : KeyStore)
    → Fresh host s j
    → Fresh host (or_same s (create host now id secret iv name daily rpm s)) j
unfolding create or_same Stays
create-Fresh host j now id secret iv name daily rpm s fresh =
    let row = new_row host now id secret iv name daily rpm s in
    let next : KeyStore = record s { rows = s.rows ++ (row ∷ []) } in
    let stays : Stays s next j =
      λ r found. (r, ground (arith, find_row-append j s.rows row, found), refl) in
    by_guard
      (not s.db_ok || is_some (find_row id s.rows) || is_some (find_hash row.key_hash s.rows))
      (Stays-Fresh host s next j refl stays fresh)
  where
    by_guard :
        (b : Bool)
        → Fresh host
            (record s { rows = s.rows ++ (new_row host now id secret iv name daily rpm s ∷ []) })
            j
        → Fresh host
            (or_same s (
              if b
              then none
              else some (
                plaintext_of secret,
                record s { rows = s.rows ++ (new_row host now id secret iv name daily rpm s ∷ []) },
              )))
            j
    by_guard true next = fresh
    by_guard false next = next

updated-Fresh :
    (host : Host) (j : Text) (now : ℕ) (id : Text) (patch : Patch) (s : KeyStore)
    → Fresh host s j
    → Fresh host (updated_store host now id patch s) j
unfolding updated_store patched
updated-Fresh host j now id patch s fresh =
    dropped-Fresh host s (updated_store host now id patch s) id j refl
      (λ e.
        find_row-change_row id j (patched host now patch) s.rows (λ r. refl)
        ∙ if-false (eq_text id j) _ _ e)
      fresh

update-Fresh :
    (host : Host) (j : Text) (now : ℕ) (id : Text) (patch : Patch) (s : KeyStore)
    → Fresh host s j
    → Fresh host (update host now id patch s).1 j
unfolding update
update-Fresh host j now id patch s fresh = by_row (find_row id s.rows)
  where
    by_row :
        (v : Option RawKeyRow)
        → Fresh host
            (elim v as (λ _. Option ApiKeyRecord × KeyStore) [
              | none ↦ (none, s)
              | some r ↦
                  (get id (updated_store host now id patch s), updated_store host now id patch s)
            ]).1
            j
    by_row none = fresh
    by_row (some r) = updated-Fresh host j now id patch s fresh

rotated-Fresh :
    (host : Host) (j id plaintext iv : Text) (s : KeyStore)
    → Fresh host s j
    → Fresh host (rotated_store host id plaintext iv s) j
unfolding rotated_store with_secret
rotated-Fresh host j id plaintext iv s fresh =
    let t = rotated_store host id plaintext iv s in
    Stays-Fresh host s t j refl
      (changed-Stays s t id j (with_secret host plaintext iv s) refl (λ r. refl) (λ r. refl)) fresh

rotate-Fresh :
    (host : Host) (j id secret iv : Text) (s : KeyStore)
    → Fresh host s j
    → Fresh host (rotate host id secret iv s).1 j
unfolding rotate
rotate-Fresh host j id secret iv s fresh = by_row (find_row id s.rows)
  where
    by_row :
        (v : Option RawKeyRow)
        → Fresh host
            (elim v as (λ _. Option Text × KeyStore) [
              | none ↦ (none, s)
              | some r ↦
                  (some (plaintext_of secret), rotated_store host id (plaintext_of secret) iv s)
            ]).1
            j
    by_row none = fresh
    by_row (some r) = rotated-Fresh host j id (plaintext_of secret) iv s fresh

perform-Fresh :
    (host : Host) (j : Text) (op : Op) (s : KeyStore)
    → Fresh host s j
    → Fresh host (perform host op s) j
unfolding perform remove
perform-Fresh host j (created now id secret iv name daily rpm) s fresh =
    create-Fresh host j now id secret iv name daily rpm s fresh
perform-Fresh host j (updated now id patch) s fresh = update-Fresh host j now id patch s fresh
perform-Fresh host j (removed id) s fresh =
    dropped-Fresh host s (remove id s).1 id j refl (λ e. find_row-delete_row id j s.rows e) fresh
perform-Fresh host j (rotated id secret iv) s fresh = rotate-Fresh host j id secret iv s fresh
perform-Fresh host j (scopes_read id) s fresh = scopes_of-Fresh host j id s fresh
perform-Fresh host j (touched id now) s fresh = touch-Fresh host j id now s fresh
perform-Fresh host j flushed s fresh = flush-Fresh host j s fresh

perform_all-Fresh :
    (host : Host) (j : Text) (ops : List Op) (s : KeyStore)
    → Fresh host s j
    → Fresh host (perform_all host ops s) j
unfolding perform_all
perform_all-Fresh host j [] s fresh = fresh
perform_all-Fresh host j (op ∷ ops) s fresh =
    perform_all-Fresh host j ops (perform host op s) (perform-Fresh host j op s fresh)

read-Fresh :
    (host : Host) (j : Text) (s : KeyStore)
    → Fresh host s j
    → (scopes_of host j s).0 ≡ stored_scopes host j s
unfolding Fresh scopes_of stored_scopes hit_or cache_scopes
read-Fresh host j s fresh =
    let missed = cache_scopes host j s (find_row j s.rows) in
    elim (Option-cases (get_key j s.scopes_cache)) [
      | inl e ↦ ap (λ h. (hit_or s missed h).0) e ∙ missed-stored (find_row j s.rows)
      | inr (hit, e) ↦
          let (r, found, k) = fresh hit e in
          ap (λ h. (hit_or s missed h).0) e ∙ k ∙ sym (ap of_row found)
    ]
  where
    of_row : Option RawKeyRow → Option (List Text)
    of_row v = elim v [ none ↦ none | some r ↦ parse_key_scopes host r.scopes ]

    missed-stored : (v : Option RawKeyRow) → (cache_scopes host j s v).0 ≡ of_row v
    missed-stored none = refl
    missed-stored (some r) = refl

-- After any operations on a store whose cache was empty, the whitelist that the engine reads for a key
-- is the one that its row holds then, or none for an unknown key: the cache is never stale.
pub scopes_never_stale :
    (host : Host) (ops : List Op) (s : KeyStore) (id : Text)
    → s.scopes_cache ≡ []
    → (scopes_of host id (perform_all host ops s)).0
      ≡ stored_scopes host id (perform_all host ops s)
unfolding Fresh get_key
scopes_never_stale host ops s id empty =
    read-Fresh host id (perform_all host ops s)
      (perform_all-Fresh host id ops s (λ hit h. absurd (ground (arith, h, ap (get_key id) empty))))
