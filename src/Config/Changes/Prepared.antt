-- ===== src/Config/Changes/Prepared.antt =====
-- What `preparePatch` has checked when it returns a change.
use benis_phone.Common.{
  ℕ, ◌≡◌, refl, ap, ◌∙◌, true, ◌⊎◌, inl, inr, some, List, [], ◌∷◌, ◌++◌, arith, Option-cases,
  Bool-cases, Sum-cases, subst,
}
use benis_phone.Common.Text.{Text, ◌=ₜ◌}
use benis_phone.Config.Json.{Json}
use benis_phone.Config.Patch.{Operation, DiffItem, Error, Result, ok, err, apply_json_patch}
use benis_phone.Config.Sip.{validate_sip_definition}
use benis_phone.Config.Document.{connections, is_array, definition_of}
use benis_phone.Config.Store.{ConfigRow, Db, get_config, list_sip_secrets}
use benis_phone.Config.Changes.{
  Platform, PreparedChange, missing_passwords, prepared, prepare_document, prepare_patch,
  is_none_left,
}

Result-cases {ℓ} :
    {A : Type ℓ} (r : Result A) → ((a : A) × (r ≡ ok a)) ⊎ ((e : Error) × (r ≡ err e))
Result-cases (ok a) = inl (a, refl)
Result-cases (err e) = inr (e, refl)

none_left-append : (xs ys : List Text) → is_none_left (xs ++ ys) ≡ true → (xs ≡ []) × (ys ≡ [])
none_left-append [] [] h = (refl, refl)
none_left-append [] (y ∷ ys) h = absurd (ground arith)
none_left-append (x ∷ xs) ys h = absurd (ground arith)

pub not_inr {ℓ κ} : {A : Type ℓ} {B : Type κ} {a : A} {b : B} → ◌≡◌ {A = A ⊎ B} (inl a) (inr b) → ⊥
not_inr q = ground arith

pub sum-inj {ℓ κ} : {A : Type ℓ} {B : Type κ} {a b : B} → ◌≡◌ {A = A ⊎ B} (inr a) (inr b) → a ≡ b
sum-inj {a = a} e = ap (λ x. elim x [ inl y ↦ a | inr b ↦ b ]) e

module _ (p : Platform) where
  -- A change of the configuration as it stands in the tables.
  pub record IsPrepared (name base : Text) (patch : List Operation) (bytes : ℕ) (db : Db)
      (c : PreparedChange) : Type 0 where
    pub current : get_config name db ≡ some c.row
    pub unchanged : (c.row.hash =ₜ base) ≡ true
    pub applied :
        (value : Json) × (apply_json_patch bytes patch c.row.doc ≡ ok (value, c.diff))
        × (p.schema value ≡ inr c.doc)
    pub listed : is_array (connections c.doc) ≡ true
    pub validated : validate_sip_definition p.url_host (definition_of c.doc) ≡ some []
    pub passwords :
        missing_passwords (list_sip_secrets name db) (definition_of c.doc).connection ≡ []
    pub made : c ≡ prepared p c.row c.doc (list_sip_secrets name db) patch c.diff

  -- The document behind a success of `prepare_document`.
  prepare_document-ok :
      (name : Text) (patch : List Operation) (db : Db) (row : ConfigRow) (doc : Json)
      (diff : List DiffItem) {c : PreparedChange}
      → prepare_document p name row doc patch diff db ≡ inr c
      → (is_array (connections doc) ≡ true)
        × (validate_sip_definition p.url_host (definition_of doc) ≡ some [])
        × (missing_passwords (list_sip_secrets name db) (definition_of doc).connection ≡ [])
        × (prepared p row doc (list_sip_secrets name db) patch diff ≡ c)
  unfolding prepare_document
  prepare_document-ok name patch db row doc diff {c} h =
      elim (Option-cases (validate_sip_definition p.url_host (definition_of doc))) [
        | inl n ↦ absurd (not_inr (rw (prepare_document, n) at h))
        | inr (errors, e) ↦ elim (Bool-cases (is_array (connections doc))) [
          | inr f ↦ absurd (not_inr (rw (prepare_document, e, f) at h))
          | inl t ↦
              elim (Bool-cases (
                is_none_left (
                  errors
                  ++ missing_passwords (list_sip_secrets name db)
                      (definition_of doc).connection))) [
                        | inr f ↦ absurd (not_inr (rw (prepare_document, e, t, f) at h))
                        | inl k ↦
                            let (no_errors, no_missing) = none_left-append errors _ k in
                            (
                              t,
                              e ∙ ap some no_errors,
                              no_missing,
                              sum-inj (rw (prepare_document, e, t, k) at h),
                            )
                      ]
        ]
      ]

  prepare_document-IsPrepared :
      (name base : Text) (patch : List Operation) (bytes : ℕ) (db : Db) (row : ConfigRow)
      (value doc : Json) (diff : List DiffItem) {c : PreparedChange}
      → get_config name db ≡ some row
      → (row.hash =ₜ base) ≡ true
      → apply_json_patch bytes patch row.doc ≡ ok (value, diff)
      → p.schema value ≡ inr doc
      → prepare_document p name row doc patch diff db ≡ inr c
      → IsPrepared name base patch bytes db c
  unfolding prepared
  prepare_document-IsPrepared name base patch bytes db row value doc diff {c} g u a s h =
      let (t, e, m, made) = prepare_document-ok name patch db row doc diff h in
      let r : IsPrepared name base patch bytes db
          (prepared p row doc (list_sip_secrets name db) patch diff) =
        record {
          current = g;
          unchanged = u;
          applied = (value, a, s);
          listed = t;
          validated = e;
          passwords = m;
          made = refl;
        } in
      subst (IsPrepared name base patch bytes db) made r

  pub prepare_patch-IsPrepared :
      (name base : Text) (bytes : ℕ) (patch : List Operation) (db : Db) {c : PreparedChange}
      → prepare_patch p name base bytes patch db ≡ inr c
      → IsPrepared name base patch bytes db c
  unfolding prepare_patch
  prepare_patch-IsPrepared name base bytes patch db {c} h =
      elim (Option-cases (get_config name db)) [
        | inl n ↦ absurd (not_inr (rw (prepare_patch, n) at h))
        | inr (row, g) ↦ elim (Bool-cases (row.hash =ₜ base)) [
          | inr f ↦ absurd (not_inr (rw (prepare_patch, g, f) at h))
          | inl t ↦ elim (Result-cases (apply_json_patch bytes patch row.doc)) [
            | inr (e, q) ↦ absurd (not_inr (rw (prepare_patch, g, t, q) at h))
            | inl ((value, diff), a) ↦ elim (Sum-cases (p.schema value)) [
              | inl (issues, q) ↦ absurd (not_inr (rw (prepare_patch, g, t, a, q) at h))
              | inr (doc, s) ↦
                  prepare_document-IsPrepared name base patch bytes db row value doc diff g t a s
                    (rw (prepare_patch, g, t, a, s) at h)
            ]
          ]
        ]
      ]
