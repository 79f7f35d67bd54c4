-- ===== src/Config/Service/Requests.antt =====
-- The requests other than a save, and any run of requests.
use benis_phone.Common.{
  ℕ, suc, ◌≡◌, refl, sym, ap, Option, none, some, List, [], ◌∷◌, inl, inr, arith, Option-cases,
  Bool-cases, is_some, subst, some-inj, length, ◌==◌,
}
use benis_phone.Common.Table.{All-first?}
use benis_phone.Common.Text.{Text}
use benis_phone.Config.Json.{Json}
use benis_phone.Config.Document.{field, text_of, document_ids}
use benis_phone.Config.Secrets.{
  CredentialBundle, encrypt_sip_password, decrypt_sip_password, encrypt_credential_bundle,
  get_credential_bundle, filter_sip_secrets,
}
use benis_phone.Config.Store.{
  ConfigRow, SipSecretRow, Db, named, is_taken, get_config, upsert_config, list_sip_secrets,
  put_sip_secret, put_credential_bundle, is_config_name,
}
use benis_phone.Config.Changes.{Platform, config_hash, bump}
use benis_phone.Config.Api.{
  committed, delete_one, target_of, copy_secrets, copied_row, copy_config, copy_batch, set_states,
  duplicate, duplicate_named, is_null, is_object, refused_credential, set_credentials,
  update_revision, write_credentials, save_credentials, patch_credentials, rotate_registration,
}
use benis_phone.Config.Save.{Reply, config, view_of, is_hash, entries}
use benis_phone.Config.Service.Consistent.{
  IsFaithful, IsConsistent, SameRows, SameRows-IsConsistent, upsert_config-IsConsistent,
  delete_config-IsConsistent, update-named-IsConsistent,
}
use benis_phone.Config.Service.Saves.{
  SameRows-trans, >>=-some, put_sip_secret-SameRows, put_credential_bundle-SameRows,
}

module _ (p : Platform) where
  pub delete_one-IsConsistent :
      (name : Text) (db : Db) → IsConsistent p db → IsConsistent p (delete_one name db).1
  unfolding delete_one
  delete_one-IsConsistent name db c = elim (Option-cases (get_config name db)) [
    | inl n ↦ rw (delete_one, n) c
    | inr (row, e) ↦ rw (delete_one, e) (delete_config-IsConsistent p name db c)
  ]

  copy_secrets-SameRows :
      (target : Text) (now : ℕ) (ivs : List (List ℕ)) (rows : List SipSecretRow) (db : Db)
      {db' : Db}
      → copy_secrets p target now ivs rows db ≡ some db'
      → SameRows db db'
  unfolding copy_secrets
  copy_secrets-SameRows target now ivs [] db h =
      let same = some-inj h in (ap (λ x. x.configs) (sym same), ap (λ x. x.changes) (sym same))
  copy_secrets-SameRows target now [] (s ∷ rows) db h = absurd (ground arith)
  copy_secrets-SameRows target now (iv ∷ ivs) (s ∷ rows) db {db'} h =
      let (password, e, h1) = >>=-some (decrypt_sip_password p.cipher p.encryption_key s) _ h in
      let (secret, e1, h2) =
        >>=-some (encrypt_sip_password p.cipher p.encryption_key target s.connection_id password iv)
          _ h1 in
      let (db1, e2, h3) =
        >>=-some
          (put_sip_secret
            (record {
              config_name = target;
              connection_id = s.connection_id;
              secret = secret;
              updated_at = now;
            })
            db)
          _ h2 in
      SameRows-trans db db1 db' (put_sip_secret-SameRows _ db e2)
        (copy_secrets-SameRows target now ivs rows db1 h3)

  get_config-SameRows :
      (name : Text) (db db' : Db) {r : ConfigRow}
      → SameRows db db'
      → get_config name db ≡ some r
      → get_config name db' ≡ some r
  unfolding get_config
  get_config-SameRows name db db' (same, _) e = rw same e

  row-IsFaithful :
      (name : Text) (db : Db) {r : ConfigRow}
      → IsConsistent p db
      → get_config name db ≡ some r
      → IsFaithful p r
  unfolding get_config
  row-IsFaithful name db c e = All-first? (IsFaithful p) (named name) db.configs c.rows e

  copied_row-IsFaithful :
      (target new_id : Text) (revision now : ℕ) (source : ConfigRow)
      → IsFaithful p source
      → IsFaithful p (copied_row p target new_id revision now source)
  unfolding copied_row
  copied_row-IsFaithful target new_id revision now source f = record {
    rendered = f.rendered;
    hashed = refl;
    served = f.served;
  }

  copied_row-last :
      (target new_id : Text) (revision now : ℕ) (source : ConfigRow)
      → (copied_row p target new_id revision now source).last_change_id ≡ none
  unfolding copied_row
  copied_row-last target new_id revision now source = refl

  committed-IsConsistent :
      (o : Option Db) (reply : Reply) (db : Db)
      → IsConsistent p db
      → ((db' : Db) → o ≡ some db' → IsConsistent p db')
      → IsConsistent p (committed o reply db).1
  committed-IsConsistent none reply db c f = c
  committed-IsConsistent (some db') reply db c f = f db' refl

  copy_batch-IsConsistent :
      (row : ConfigRow) (rows : List SipSecretRow) (target : Text) (now : ℕ) (ivs : List (List ℕ))
      (db : Db) {db' : Db}
      → IsFaithful p row
      → row.last_change_id ≡ none
      → IsConsistent p db
      → copy_batch p row rows target now ivs db ≡ some db'
      → IsConsistent p db'
  unfolding copy_batch
  copy_batch-IsConsistent row rows target now ivs db {db'} f l c h =
      let (db1, e, h1) = >>=-some (upsert_config row db) (copy_secrets p target now ivs rows) h in
      SameRows-IsConsistent p db1 db' (copy_secrets-SameRows target now ivs rows db1 h1)
        (upsert_config-IsConsistent p row db f l c e)

  copy_config-IsConsistent :
      (source : ConfigRow) (from target : Text) (now : ℕ) (new_id : Text) (ivs : List (List ℕ))
      (db : Db)
      → IsFaithful p source
      → IsConsistent p db
      → IsConsistent p (copy_config p source from target now new_id ivs db).1
  unfolding copy_config
  copy_config-IsConsistent source from target now new_id ivs db f c =
      let rows = filter_sip_secrets (list_sip_secrets from db) (document_ids source.doc) in
      let row = copied_row p target new_id (bump rows 0) now source in
      (committed-IsConsistent (copy_batch p row rows target now ivs db)
        (config (view_of row (set_states rows))) db c
        (λ db' h.
          copy_batch-IsConsistent row rows target now ivs db
            (copied_row-IsFaithful target new_id (bump rows 0) now source f)
            (copied_row-last target new_id (bump rows 0) now source) c h))

  duplicate_named-IsConsistent :
      (body : Json) (from : Text) (now : ℕ) (new_id : Text) (ivs : List (List ℕ)) (db : Db)
      → IsConsistent p db
      → IsConsistent p (duplicate_named p body from now new_id ivs db).1
  unfolding duplicate_named
  duplicate_named-IsConsistent body from now new_id ivs db c =
      elim (Bool-cases (is_config_name (target_of body))) [
        | inr f ↦ rw (duplicate_named, f) c
        | inl t ↦ elim (Option-cases (get_config from db)) [
          | inl n ↦ rw (duplicate_named, t, n) c
          | inr (source, e) ↦ elim (Option-cases (text_of (field "name" body))) [
            | inl n ↦ rw (duplicate_named, t, e, n) c
            | inr (target, k) ↦ elim (Bool-cases (is_some (get_config target db))) [
              | inl there ↦ rw (duplicate_named, t, e, k, there) c
              | inr fresh ↦
                  let same : duplicate_named p body from now new_id ivs db
                      ≡ copy_config p source from target now new_id ivs db =
                    rw (duplicate_named, t, e, k, fresh) refl in
                  subst (λ o. IsConsistent p o.1) (sym same)
                    (copy_config-IsConsistent source from target now new_id ivs db
                      (row-IsFaithful from db c e) c)
            ]
          ]
        ]
      ]

  pub duplicate-IsConsistent :
      (body : Option Json) (from : Text) (now : ℕ) (new_id : Text) (ivs : List (List ℕ)) (db : Db)
      → IsConsistent p db
      → IsConsistent p (duplicate p body from now new_id ivs db).1
  unfolding duplicate
  duplicate-IsConsistent none from now new_id ivs db c = c
  duplicate-IsConsistent (some body) from now new_id ivs db c = elim (Bool-cases (is_null body)) [
    | inl t ↦ rw (duplicate, t) c
    | inr f ↦ rw (duplicate, f) (duplicate_named-IsConsistent body from now new_id ivs db c)
  ]

  write_credentials-IsConsistent :
      (row : ConfigRow) (name : Text) (bundle : CredentialBundle) (now : ℕ) (iv : List ℕ) (db : Db)
      {db' : Db}
      → get_config name db ≡ some row
      → IsConsistent p db
      → write_credentials p row name bundle now iv db ≡ some db'
      → IsConsistent p db'
  unfolding write_credentials update_revision
  write_credentials-IsConsistent row name bundle now iv db {db'} g c h =
      let (secret, e1, h1) =
        >>=-some (encrypt_credential_bundle p.cipher p.encryption_key name bundle iv) _ h in
      let (db1, e2, h2) =
        >>=-some
          (put_credential_bundle (record { config_name = name; secret = secret; updated_at = now })
            db)
          _ h1 in
      let kept = put_credential_bundle-SameRows _ db e2 in
      let f = row-IsFaithful name db c g in
      let revision = suc row.secret_revision in
      let set : ConfigRow → ConfigRow = λ r. record r {
        secret_revision = revision;
        hash = config_hash p row.toml revision;
        updated_at = now;
      } in
      subst (IsConsistent p) (some-inj h2) (
        update-named-IsConsistent p name set db1 (λ x. refl) (λ x. refl)
          (get_config-SameRows name db db1 kept g)
          (record { rendered = f.rendered; hashed = refl; served = f.served })
          (SameRows-IsConsistent p db db1 kept c))

  save_credentials-IsConsistent :
      (row : ConfigRow) (name : Text) (changes : List (Text × Json)) (now : ℕ) (iv : List ℕ)
      (db : Db)
      → get_config name db ≡ some row
      → IsConsistent p db
      → IsConsistent p (save_credentials p row name changes now iv db).1
  unfolding save_credentials
  save_credentials-IsConsistent row name changes now iv db g c =
      elim (Option-cases (get_credential_bundle p.cipher p.encryption_key name db)) [
        | inl n ↦ rw (save_credentials, n) c
        | inr (old, e) ↦
            let bundle = set_credentials p changes old in
            rw (save_credentials, e)
              (committed-IsConsistent (write_credentials p row name bundle now iv db) _ db c
                (λ db' h. write_credentials-IsConsistent row name bundle now iv db g c h))
      ]

  pub patch_credentials-IsConsistent :
      (body : Option Json) (name : Text) (now : ℕ) (iv : List ℕ) (db : Db)
      → IsConsistent p db
      → IsConsistent p (patch_credentials p body name now iv db).1
  unfolding patch_credentials
  patch_credentials-IsConsistent body name now iv db c = elim (Option-cases (get_config name db)) [
    | inl n ↦ rw (patch_credentials, n) c
    | inr (row, g) ↦ elim (Option-cases body) [
      | inl n ↦ rw (patch_credentials, g, n) c
      | inr (b, e) ↦ elim (Bool-cases (is_hash (text_of (field "expected_hash" b)) row.hash)) [
        | inr f ↦ rw (patch_credentials, g, e, f) c
        | inl t ↦ elim (Bool-cases (is_object (field "patch" b))) [
          | inr f ↦ rw (patch_credentials, g, e, t, f) c
          | inl o ↦ elim (Bool-cases (length (entries (field "patch" b)) == 0)) [
            | inl z ↦ rw (patch_credentials, g, e, t, o, z) c
            | inr z ↦ elim (Option-cases (refused_credential (entries (field "patch" b)))) [
              | inr (reason, k) ↦ rw (patch_credentials, g, e, t, o, z, k) c
              | inl k ↦
                  rw (patch_credentials, g, e, t, o, z, k)
                    (save_credentials-IsConsistent row name (entries (field "patch" b)) now iv db g
                      c)
            ]
          ]
        ]
      ]
    ]
  ]

  pub rotate_registration-IsConsistent :
      (name : Text) (now : ℕ) (new_id : Text) (db : Db)
      → IsConsistent p db
      → IsConsistent p (rotate_registration p name now new_id db).1
  unfolding rotate_registration
  rotate_registration-IsConsistent name now new_id db c = elim (Option-cases (get_config name db)) [
    | inl n ↦ rw (rotate_registration, n) c
    | inr (row, e) ↦ elim (Bool-cases (is_taken new_id name db)) [
      | inl t ↦ rw (rotate_registration, e, t) c
      | inr n ↦
          let f = row-IsFaithful name db c e in
          rw (rotate_registration, e, n)
            (update-named-IsConsistent p name
              (λ (r : ConfigRow). record r { registration_id = new_id; updated_at = now }) db
              (λ x. refl) (λ x. refl) e
              (record { rendered = f.rendered; hashed = f.hashed; served = f.served }) c)
    ]
  ]
