-- ===== src/Store/Configuration.antt =====
-- `put_configuration` and `get_configuration`.
use ignis_test.Prelude.{
  ℕ, ◌≤◌, ◌<◌, ◌≡◌, ◌≢◌, ◌⊎◌, inl, inr, refl, Bool, false, Option, none, some, String, str_eq,
  str_eq_refl, str_eq-ne, leb, if◌then◌else◌, arith, Option-cases, Bool-cases, leb→le,
}
use ignis_test.Store.Table.{find, upsert, upserted, find-upsert}
use ignis_test.Store.Schema.{ConfigurationRow, Db, Result, ok, err, version_must_increase}

module _ {F J : Type 0} where
  abbrev pub get_row : String → Db F J → Option (ConfigurationRow J)
  get_row name db = find (λ c. c.name) name db.configurations

module _ {J : Type 0} where
  abbrev value_of : Option (ConfigurationRow J) → Option J
  value_of none = none
  value_of (some c) = some c.value

  abbrev is_stale : ℕ → Option (ConfigurationRow J) → Bool
  is_stale version none = false
  is_stale version (some c) = leb version c.version

module _ {F J : Type 0} where
  unfoldable pub get_configuration : String → Db F J → Option J
  get_configuration name db = value_of (get_row name db)

  abbrev pub written : ℕ → String → ℕ → J → Db F J → Db F J
  written now name version value db =
      let x : ConfigurationRow J = record {
        name = name;
        version = version;
        value = value;
        updated_at = now;
      } in
      record db {
        configurations =
            upsert (λ c. c.name) x
              (λ c. record c { version = x.version; value = x.value; updated_at = x.updated_at })
              db.configurations;
      }

  unfoldable pub put_configuration : ℕ → String → ℕ → J → Db F J → Result (Db F J)
  put_configuration now name version value db =
      if is_stale version (get_row name db)
      then err version_must_increase
      else ok (written now name version value db)

  get_row-written :
      (now : ℕ) (name : String) (version : ℕ) (value : J) (db : Db F J) (j : String)
      → get_row j (written now name version value db) ≡ (
          if str_eq name j
          then some (
              upserted
                (λ c. c.name)
                (record { name = name; version = version; value = value; updated_at = now })
                (λ c. record c { version = version; value = value; updated_at = now })
                (get_row j db))
          else get_row j db)
  get_row-written now name version value db j =
      find-upsert (λ c. c.name) j
        (record { name = name; version = version; value = value; updated_at = now })
        (λ c. record c { version = version; value = value; updated_at = now }) db.configurations
        (λ r. refl)

  get_configuration-written :
      (now : ℕ) (name : String) (version : ℕ) (value : J) (db : Db F J)
      → get_configuration name (written now name version value db) ≡ some value
  unfolding get_configuration
  get_configuration-written now name version value db =
      rw (get_row-written now name version value db name, str_eq_refl name) (ground arith)

  get_configuration-other :
      (now : ℕ) (name : String) (version : ℕ) (value : J) (db : Db F J) (j : String)
      → j ≢ name
      → get_configuration j (written now name version value db) ≡ get_configuration j db
  unfolding get_configuration
  get_configuration-other now name version value db j other =
      rw (get_row-written now name version value db j, str_eq-ne name j other) refl

  pub put_configuration_lem :
      (now : ℕ) (name : String) (version : ℕ) (value : J) (db : Db F J)
      → ((c : ConfigurationRow J) × (get_row name db ≡ some c)
          × (version ≤ c.version)
          × (put_configuration now name version value db ≡ err version_must_increase))
        ⊎ ((after : Db F J) × (put_configuration now name version value db ≡ ok after)
            × ((c : ConfigurationRow J) → get_row name db ≡ some c → c.version < version)
            × (get_configuration name after ≡ some value)
            × ((j : String) → j ≢ name → get_configuration j after ≡ get_configuration j db))
  unfolding put_configuration
  put_configuration_lem now name version value db = elim (Option-cases (get_row name db)) [
    | inl fresh ↦ inr (
      written now name version value db,
      rw fresh,
      λ c e. absurd (cc),
      get_configuration-written now name version value db,
      get_configuration-other now name version value db,
    )
    | inr (c, known) ↦ elim (Bool-cases (leb version c.version)) [
      | inl stale ↦ inl (c, known, leb→le version c.version stale, rw (known, stale))
      | inr newer ↦ inr (
        written now name version value db,
        rw (known, newer),
        λ d e. ground arith,
        get_configuration-written now name version value db,
        get_configuration-other now name version value db,
      )
    ]
  ]
