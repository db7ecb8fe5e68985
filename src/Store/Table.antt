-- ===== src/Store/Table.antt =====
-- A table with a text primary key: the statements that the program uses on it, and their laws.
-- `key` gives a row's primary key.
use ignis_test.Prelude.{
  ◌≡◌, refl, Option, none, some, List, [], ◌∷◌, String, str_eq, str_eq_iff, arith, if◌then◌else◌,
}

module _ {A : Type 0} (key : A → String) where
  -- SELECT … WHERE key=?
  unfoldable pub find : String → List A → Option A
  find k [] = none
  find k (r ∷ rows) = if str_eq (key r) k then some r else find k rows

  -- UPDATE … SET … WHERE key=?
  unfoldable pub update_where : String → (A → A) → List A → List A
  update_where k change [] = []
  update_where k change (r ∷ rows) =
      (if str_eq (key r) k then change r else r) ∷ update_where k change rows

  -- INSERT … ON CONFLICT(key) DO UPDATE SET …
  unfoldable pub upsert : A → (A → A) → List A → List A
  upsert fresh change [] = fresh ∷ []
  upsert fresh change (r ∷ rows) =
      if str_eq (key r) (key fresh) then change r ∷ rows else r ∷ upsert fresh change rows

  abbrev pub upserted : A → (A → A) → Option A → A
  upserted fresh change none = fresh
  upserted fresh change (some r) = change r

  abbrev pub changed : (A → A) → Option A → Option A
  changed change none = none
  changed change (some r) = some (change r)

  -- A row that a statement does not name stays as it was; the named one is changed.
  pub find-update_where :
      (k j : String) (change : A → A) (rows : List A)
      → ((r : A) → key (change r) ≡ key r)
      → find j (update_where k change rows)
        ≡ (if str_eq k j then changed change (find j rows) else find j rows)
  unfolding find update_where
  find-update_where k j change [] keeps = ground arith
  find-update_where k j change (r ∷ rows) keeps = ground (
    arith,
    keeps r,
    str_eq_iff (key r) k,
    str_eq_iff (key r) j,
    str_eq_iff k j,
    find-update_where k j change rows keeps,
  )

  pub find-upsert :
      (j : String) (fresh : A) (change : A → A) (rows : List A)
      → ((r : A) → key (change r) ≡ key r)
      → find j (upsert fresh change rows)
        ≡ (if str_eq (key fresh) j then some (upserted fresh change (find j rows)) else find j rows)
  unfolding find upsert
  find-upsert j fresh change [] keeps = refl
  find-upsert j fresh change (r ∷ rows) keeps = ground (
    arith,
    keeps r,
    str_eq_iff (key r) (key fresh),
    str_eq_iff (key r) j,
    str_eq_iff (key fresh) j,
    find-upsert j fresh change rows keeps,
  )

  pub key-find : (k : String) (rows : List A) {r : A} → find k rows ≡ some r → key r ≡ k
  unfolding find
  key-find k [] e = absurd (cc)
  key-find k (r ∷ rows) {r = found} e =
      ground (arith, str_eq_iff (key r) k, key-find k rows {r = found})
