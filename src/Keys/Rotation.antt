-- ===== src/Keys/Rotation.antt =====
-- What src/server/key-store.ts verifies after a key is created or rotated.
use agy_proxy.Prelude.{
  ℕ, true, false, not, ◌||◌, List, [], ◌∷◌, ◌++◌, Option, none, some, Text, eq_text, if◌then◌else◌,
  ◌≡◌, refl, ap, ◌∙◌, sym, arith, inl, inr, Bool-cases, eq_text_refl, if-true, if-false,
}
use agy_proxy.Keys.{
  Host, RawKeyRow, KeyStore, ok, unknown, disabled, prefix_of, find_row, find_hash, change_row,
  delete_row, create, rotate, new_row, rotated_store, verify, reveal, is_some, with_secret, judged,
  sealed, plaintext_of, from_row,
}
use agy_proxy.Keys.Rows.{find_row-append}

find_hash-append :
    (h : Text) (rows : List RawKeyRow) (r : RawKeyRow)
    → find_hash h rows ≡ none
    → eq_text r.key_hash h ≡ true
    → find_hash h (rows ++ (r ∷ [])) ≡ some r
unfolding find_hash
find_hash-append h [] r absent same = if-true (eq_text r.key_hash h) (some r) none same
find_hash-append h (x ∷ rows) r absent same = ground (arith, absent, find_hash-append h rows r)

-- The changed row is the one with the new hash.
find_hash-change_row :
    (h id : Text) (f : RawKeyRow → RawKeyRow) (rows : List RawKeyRow) (r : RawKeyRow)
    → find_hash h rows ≡ none
    → find_row id rows ≡ some r
    → eq_text (f r).key_hash h ≡ true
    → find_hash h (change_row id f rows) ≡ some (f r)
unfolding find_hash find_row change_row
find_hash-change_row h id f [] r absent found same = absurd (ground (arith, found))
find_hash-change_row h id f (x ∷ rows) r absent found same = elim (Bool-cases (eq_text x.id id)) [
  | inl e ↦
      let same_row : x ≡ r = ground (arith, found, e) in
      ap (find_hash h) (if-true (eq_text x.id id) (f x ∷ rows) (x ∷ change_row id f rows) e)
      ∙ ap (λ y. find_hash h (f y ∷ rows)) same_row
      ∙ if-true (eq_text (f r).key_hash h) (some (f r)) (find_hash h rows) same
  | inr e ↦
      ap (find_hash h) (if-false (eq_text x.id id) (f x ∷ rows) (x ∷ change_row id f rows) e)
      ∙ if-false (eq_text x.key_hash h) (some x) (find_hash h (change_row id f rows))
          (ground (arith, absent))
      ∙ find_hash-change_row h id f rows r (ground (arith, absent)) (ground (arith, found, e)) same
]

-- And it no longer has another one.
find_hash-changed :
    (h id : Text) (f : RawKeyRow → RawKeyRow) (rows : List RawKeyRow)
    → find_hash h (delete_row id rows) ≡ none
    → ((r : RawKeyRow) → eq_text (f r).key_hash h ≡ false)
    → find_hash h (change_row id f rows) ≡ none
unfolding find_hash change_row delete_row
find_hash-changed h id f [] absent other = refl
find_hash-changed h id f (x ∷ rows) absent other =
    ground (arith, absent, other x, find_hash-changed h id f rows)

-- A key is rotated, and its new value verifies as the key's record with another prefix and nothing else
-- changed, enabled or disabled as before, while the old value is unknown from then on: if the key
-- exists, no key has the hash of the new value, the old one has another hash, and no other key has
-- that.
pub rotate_replaces :
    (host : Host) (id secret iv old : Text) (s : KeyStore) (r : RawKeyRow)
    → find_row id s.rows ≡ some r
    → find_hash (host.hash_key (plaintext_of secret)) s.rows ≡ none
    → eq_text (host.hash_key (plaintext_of secret)) (host.hash_key old) ≡ false
    → find_hash (host.hash_key old) (delete_row id s.rows) ≡ none
    → (verify host (plaintext_of secret) (rotate host id secret iv s).1 ≡ elim r.disabled_at [
      | none ↦ ok (record (from_row r) { prefix = prefix_of (plaintext_of secret) })
      | some t ↦ disabled (record (from_row r) { prefix = prefix_of (plaintext_of secret) })
    ])
      × (verify host old (rotate host id secret iv s).1 ≡ unknown)
unfolding rotate rotated_store verify with_secret judged from_row
rotate_replaces host id secret iv old s r found absent other alone =
    let f = with_secret host (plaintext_of secret) iv s in
    let rotated : (rotate host id secret iv s).1
        ≡ rotated_store host id (plaintext_of secret) iv s =
      ap
        (λ v.
          (elim v as (λ _. Option Text × KeyStore) [
            | none ↦ (none, s)
            | some _ ↦
                (some (plaintext_of secret), rotated_store host id (plaintext_of secret) iv s)
          ]).1)
        found in
    (
      ap (verify host (plaintext_of secret)) rotated
          ∙ ap (λ v. elim v [ none ↦ unknown | some x ↦ judged x ])
              (find_hash-change_row (host.hash_key (plaintext_of secret)) id f s.rows r absent found
                (eq_text_refl (host.hash_key (plaintext_of secret)))),
      ap (verify host old) rotated
          ∙ ap (λ v. elim v [ none ↦ unknown | some x ↦ judged x ])
              (find_hash-changed (host.hash_key old) id f s.rows alone (λ x. other)),
    )

is_some-false : (v : Option RawKeyRow) → is_some v ≡ false → v ≡ none
unfolding is_some
is_some-false none h = refl
is_some-false (some r) h = cc

with_new : Host → ℕ → Text → Text → Text → Option Text → ℕ → ℕ → KeyStore → KeyStore
with_new host now id secret iv name daily rpm s = record s {
  rows = s.rows ++ (new_row host now id secret iv name daily rpm s ∷ []);
}

create-parts :
    (host : Host) (now : ℕ) (id secret iv : Text) (name : Option Text) (daily rpm : ℕ)
    (s t : KeyStore) (plaintext : Text)
    → create host now id secret iv name daily rpm s ≡ some (plaintext, t)
    → (plaintext ≡ plaintext_of secret)
      × (t ≡ with_new host now id secret iv name daily rpm s)
      × (find_row id s.rows ≡ none)
      × (find_hash (host.hash_key (plaintext_of secret)) s.rows ≡ none)
unfolding create with_new new_row
create-parts host now id secret iv name daily rpm s t plaintext made =
    let v = find_row id s.rows in
    let h = find_hash (host.hash_key (plaintext_of secret)) s.rows in
    elim (Bool-cases (not s.db_ok || is_some v || is_some h)) [
      | inl e ↦ absurd (ground (arith, made, e))
      | inr e ↦
          let done : some (plaintext_of secret, with_new host now id secret iv name daily rpm s)
              ≡ some (plaintext, t) =
            sym (if-false (not s.db_ok || is_some v || is_some h) none _ e) ∙ made in
          (
            ground (arith, done),
            ground (arith, done),
            is_some-false v (ground (arith, e)),
            is_some-false h (ground (arith, e)),
          )
    ]

new-verifies :
    (host : Host) (now : ℕ) (id secret iv : Text) (name : Option Text) (daily rpm : ℕ)
    (s : KeyStore)
    → find_hash (host.hash_key (plaintext_of secret)) s.rows ≡ none
    → verify host (plaintext_of secret) (with_new host now id secret iv name daily rpm s)
      ≡ ok (from_row (new_row host now id secret iv name daily rpm s))
unfolding verify judged new_row with_new
new-verifies host now id secret iv name daily rpm s no_hash =
    ap (λ v. elim v [ none ↦ unknown | some x ↦ judged x ])
      (find_hash-append (host.hash_key (plaintext_of secret)) s.rows
        (new_row host now id secret iv name daily rpm s) no_hash
        (eq_text_refl (host.hash_key (plaintext_of secret))))

opened : Host → Option Text → Option RawKeyRow → Option Text
opened host master none = none
opened host master (some r) = elim r.secret_enc [
  | none ↦ none
  | some blob ↦ elim master [ none ↦ none | some m ↦ host.open_secret m blob ]
]

new-reveals :
    (host : Host) (now : ℕ) (id secret iv : Text) (name : Option Text) (daily rpm : ℕ)
    (s : KeyStore) (master : Text)
    → find_row id s.rows ≡ none
    → s.master_key ≡ some master
    → ((text : Text) → host.open_secret master (host.seal_secret master iv text) ≡ some text)
    → reveal host id (with_new host now id secret iv name daily rpm s) ≡ some (plaintext_of secret)
unfolding reveal new_row with_new sealed opened
new-reveals host now id secret iv name daily rpm s master no_row keyed opens =
    let row = new_row host now id secret iv name daily rpm s in
    let there : find_row id (s.rows ++ (row ∷ [])) ≡ some row =
      find_row-append id s.rows row
      ∙ ap (λ v. elim v [ none ↦ if eq_text id id then some row else none | some x ↦ some x ])
          no_row
      ∙ if-true (eq_text id id) (some row) none (eq_text_refl id) in
    ap (opened host s.master_key) there
    ∙ ap
        (λ v.
          elim (elim v as (λ _. Option Text) [
            | none ↦ none
            | some m ↦ some (host.seal_secret m iv (plaintext_of secret))
          ])
            as (λ _. Option Text) [
              | none ↦ none
              | some blob ↦ elim v [ none ↦ none | some m ↦ host.open_secret m blob ]
            ])
        keyed
    ∙ opens (plaintext_of secret)

-- The plaintext that a creation hands out verifies as the new key, enabled, and the store reveals it
-- again under its master key, as long as a sealed secret opens to what was sealed.
pub create_verifies :
    (host : Host) (now : ℕ) (id secret iv : Text) (name : Option Text) (daily rpm : ℕ)
    (s t : KeyStore) (plaintext master : Text)
    → create host now id secret iv name daily rpm s ≡ some (plaintext, t)
    → s.master_key ≡ some master
    → ((text : Text) → host.open_secret master (host.seal_secret master iv text) ≡ some text)
    → (verify host plaintext t ≡ ok (from_row (new_row host now id secret iv name daily rpm s)))
      × (reveal host id t ≡ some plaintext)
create_verifies host now id secret iv name daily rpm s t plaintext master made keyed opens =
    let (same_text, same_store, no_row, no_hash) =
      create-parts host now id secret iv name daily rpm s t plaintext made in
    (
      ap (λ p. verify host p t) same_text
          ∙ ap (verify host (plaintext_of secret)) same_store
          ∙ new-verifies host now id secret iv name daily rpm s no_hash,
      ap (reveal host id) same_store
          ∙ new-reveals host now id secret iv name daily rpm s master no_row keyed opens
          ∙ ap (λ p. some p) (sym same_text),
    )
