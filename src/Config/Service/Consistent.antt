-- ===== src/Config/Service/Consistent.antt =====
-- What holds of the tables whatever requests are made.
use benis_phone.Common.{
  ◌≡◌, refl, Bool, true, false, none, some, List, [], ◌∷◌, inl, inr, arith, Bool-cases, All,
  is_some, subst, some-inj, is_some-false,
}
use benis_phone.Common.Table.{update, delete, All-update, All-delete}
use benis_phone.Common.Text.{Text}
use benis_phone.Config.Json.{Json}
use benis_phone.Config.Sip.{validate_sip_definition}
use benis_phone.Config.Document.{definition_of}
use benis_phone.Config.Store.{
  ConfigRow, Db, named, get_config, is_taken, overwrite, upsert_config, delete_config,
}
use benis_phone.Config.Changes.{Platform, config_hash}
use benis_phone.Config.Changes.Batch.{is_logged, IsAudited}
use benis_phone.Config.Save.{tolerated}
use benis_phone.Config.Service.Rows.{
  UniqueNames-update, UniqueNames-delete, All-update-named, is_logged-delete,
}

pub All-map {ℓ κ μ} :
    {A : Type ℓ} (P : A → Type κ) (Q : A → Type μ) (xs : List A)
    → ((x : A) → P x → Q x)
    → All P xs
    → All Q xs
All-map P Q [] f h = tt
All-map P Q (x ∷ xs) f (k, h) = (f x k, All-map P Q xs f h)

pub All-update_where {ℓ κ} :
    {A : Type ℓ} (P : A → Type κ) (q : A → Bool) (f : A → A) (xs : List A)
    → ((x : A) → q x ≡ true → P x → P (f x))
    → All P xs
    → All P (update q f xs)
unfolding update
All-update_where P q f [] keep h = tt
All-update_where P q f (x ∷ xs) keep (k, h) = elim (Bool-cases (q x)) [
  | inl t ↦ rw t (keep x t k, All-update_where P q f xs keep h)
  | inr n ↦ rw n (k, All-update_where P q f xs keep h)
]

All-delete_where {ℓ κ μ} :
    {A : Type ℓ} (P : A → Type κ) (Q : A → Type μ) (q : A → Bool) (xs : List A)
    → ((x : A) → q x ≡ false → P x → Q x)
    → All P xs
    → All Q (delete q xs)
unfolding delete
All-delete_where P Q q [] keep h = tt
All-delete_where P Q q (x ∷ xs) keep (k, h) = elim (Bool-cases (q x)) [
  | inl t ↦ rw t (All-delete_where P Q q xs keep h)
  | inr n ↦ rw n (keep x n k, All-delete_where P Q q xs keep h)
]

-- A document that the validation has no error for, or only the one that a draft may have.
pub record IsServed (p : Platform) (doc : Json) : Type 0 where
  pub errors : List Text
  pub validated : validate_sip_definition p.url_host (definition_of doc) ≡ some errors
  pub draft : tolerated true errors ≡ []

-- The columns of a row agree.
pub record IsFaithful (p : Platform) (r : ConfigRow) : Type 0 where
  pub rendered : r.toml ≡ p.render_toml r.doc
  pub hashed : r.hash ≡ config_hash p r.toml r.secret_revision
  pub served : IsServed p r.doc

pub record IsConsistent (p : Platform) (db : Db) : Type 0 where
  pub rows : All (IsFaithful p) db.configs
  pub audited : IsAudited db

-- Tables that agree on the configurations and the log.
abbrev pub SameRows : Db → Db → Type 0
SameRows db db' = (db'.configs ≡ db.configs) × (db'.changes ≡ db.changes)

module _ (p : Platform) where
  pub SameRows-IsConsistent :
      (db db' : Db) → SameRows db db' → IsConsistent p db → IsConsistent p db'
  SameRows-IsConsistent db db' (configs, changes) c = record {
    rows = rw configs c.rows;
    audited = record {
      names = rw configs c.audited.names;
      logged = rw (configs, changes) c.audited.logged;
    };
  }

  pub upsert_config-IsConsistent :
      (row : ConfigRow) (db : Db) {db' : Db}
      → IsFaithful p row
      → row.last_change_id ≡ none
      → IsConsistent p db
      → upsert_config row db ≡ some db'
      → IsConsistent p db'
  unfolding upsert_config get_config
  upsert_config-IsConsistent row db {db'} f l c h =
      elim (Bool-cases (is_taken row.registration_id row.name db)) [
        | inl t ↦ absurd (let h' : none ≡ some db' = rw (upsert_config, t) at h in ground arith)
        | inr n ↦ elim (Bool-cases (is_some (get_config row.name db))) [
          | inl t ↦ subst (IsConsistent p) (some-inj (rw (upsert_config, n, t) at h)) (record {
            rows =
                All-update (IsFaithful p) (named row.name) (overwrite row) db.configs
                  (λ r k. record { rendered = f.rendered; hashed = f.hashed; served = f.served })
                  c.rows;
            audited = record {
              names =
                  UniqueNames-update (named row.name) (overwrite row) db.configs (λ r. refl)
                    c.audited.names;
              logged =
                  All-update
                    (λ (r : ConfigRow). is_logged db.changes r.name r.last_change_id ≡ true)
                    (named row.name) (overwrite row) db.configs (λ r k. k) c.audited.logged;
            };
          })
          | inr e ↦ subst (IsConsistent p) (some-inj (rw (upsert_config, n, e) at h)) (record {
            rows = (f, c.rows);
            audited = record {
              names = (is_some-false _ e, c.audited.names);
              logged = (rw l refl, c.audited.logged);
            };
          })
        ]
      ]

  pub delete_config-IsConsistent :
      (name : Text) (db : Db) → IsConsistent p db → IsConsistent p (delete_config name db)
  unfolding delete_config
  delete_config-IsConsistent name db c = record {
    rows = All-delete (IsFaithful p) (named name) db.configs c.rows;
    audited = record {
      names = UniqueNames-delete (named name) db.configs c.audited.names;
      logged =
          All-delete_where (λ (r : ConfigRow). is_logged db.changes r.name r.last_change_id ≡ true)
            _ (named name) db.configs
            (λ (r : ConfigRow) n k. is_logged-delete name db.changes r.name r.last_change_id n k)
            c.audited.logged;
    };
  }

  -- An update of the row of a name that keeps the name and the last change.
  pub update-named-IsConsistent :
      (name : Text) (f : ConfigRow → ConfigRow) (db : Db) {r : ConfigRow}
      → ((x : ConfigRow) → (f x).name ≡ x.name)
      → ((x : ConfigRow) → (f x).last_change_id ≡ x.last_change_id)
      → get_config name db ≡ some r
      → IsFaithful p (f r)
      → IsConsistent p db
      → IsConsistent p (record db { configs = update (named name) f db.configs })
  unfolding get_config
  update-named-IsConsistent name f db {r} same last e k c = record {
    rows = All-update-named (IsFaithful p) name f db.configs c.audited.names e k c.rows;
    audited = record {
      names = UniqueNames-update (named name) f db.configs same c.audited.names;
      logged =
          All-update (λ (x : ConfigRow). is_logged db.changes x.name x.last_change_id ≡ true)
            (named name) f db.configs (λ x h. rw (same x, last x) h) c.audited.logged;
    };
  }
