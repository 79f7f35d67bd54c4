-- ===== src/Config/Service/Saves.antt =====
-- Each request leaves the tables consistent.
use benis_phone.Common.{
  ◌>>=◌, ℕ, ◌≡◌, refl, sym, ap, ◌∙◌, Bool, true, false, ◌&&◌, Option, none, some, List, [], ◌∷◌,
  inl, inr, arith, Option-cases, Bool-cases, Sum-cases, is_none, subst, some-inj, is_some,
}
use benis_phone.Common.Table.{first?, update, delete, first?-test, first?-update}
use benis_phone.Common.Text.{Text, codes, ◌=ₜ◌, =ₜ_iff, trim}
use benis_phone.Config.Json.{Json, null, bool, num, str, arr, obj}
use benis_phone.Config.Sip.{validate_sip_definition}
use benis_phone.Config.Document.{field, text_of, is_true, definition_of}
use benis_phone.Config.Secrets.{encrypt_sip_password}
use benis_phone.Config.Store.{
  ConfigRow, SipSecretRow, CredentialBundleRow, Db, named, is_taken, overwrite, get_config,
  upsert_config, list_sip_secrets, delete_sip_secret, put_sip_secret, put_credential_bundle,
}
use benis_phone.Config.Changes.{Platform, delete_sip_secrets, is_none_left, ids_of}
use benis_phone.Config.Changes.Batch.{delete_sip_secrets-frame}
use benis_phone.Config.Changes.Prepared.{not_inr, sum-inj}
use benis_phone.Config.Save.{
  PendingPut, tolerated, is_outdated, pending_put, check_secrets, check_config, prepare_save,
  check_body, prepare_put, write_changes, write_put, put_one, entries,
}
use benis_phone.Config.Service.Consistent.{
  IsServed, IsFaithful, IsConsistent, SameRows, SameRows-IsConsistent, upsert_config-IsConsistent,
}

delete-never {ℓ} : {A : Type ℓ} (q : A → Bool) (xs : List A) → delete (λ x. false && q x) xs ≡ xs
unfolding delete
delete-never q [] = refl
delete-never q (x ∷ xs) = ap (λ ys. x ∷ ys) (delete-never q xs)

none_left-empty : (xs : List Text) → is_none_left xs ≡ true → xs ≡ []
none_left-empty [] h = refl
none_left-empty (x ∷ xs) h = absurd (ground arith)

tolerated-draft :
    (new_draft : Bool) (errors : List Text)
    → tolerated new_draft errors ≡ []
    → tolerated true errors ≡ []
unfolding tolerated delete
tolerated-draft true errors h = h
tolerated-draft false errors h =
    let none_at_all : errors ≡ [] =
      sym (delete-never (λ e. e =ₜ codes "Add at least one SIP connection.") errors) ∙ h in
    rw (none_at_all, delete) refl

pub put_sip_secret-SameRows :
    (row : SipSecretRow) (db : Db) {db' : Db} → put_sip_secret row db ≡ some db' → SameRows db db'
unfolding put_sip_secret
put_sip_secret-SameRows row db {db'} h = (ground arith, ground arith)

pub put_credential_bundle-SameRows :
    (row : CredentialBundleRow) (db : Db) {db' : Db}
    → put_credential_bundle row db ≡ some db'
    → SameRows db db'
unfolding put_credential_bundle
put_credential_bundle-SameRows row db {db'} h = (ground arith, ground arith)

pub SameRows-trans : (a b c : Db) → SameRows a b → SameRows b c → SameRows a c
SameRows-trans a b c (h, k) (h', k') = (h' ∙ h, k' ∙ k)

pub >>=-some {ℓ κ} :
    {A : Type ℓ} {B : Type κ} (o : Option A) (f : A → Option B) {b : B}
    → (o >>= f) ≡ some b
    → (a : A) × (o ≡ some a) × (f a ≡ some b)
>>=-some none f h = absurd (ground arith)
>>=-some (some a) f h = (a, refl, h)

some-none {ℓ} : {A : Type ℓ} {a : A} → some a ≡ none → ⊥
some-none h = ground arith

-- What stands under a name behind an upsert.
abbrev Holds : ConfigRow → Db → Type 0
Holds row db =
    (r : ConfigRow) × (get_config row.name db ≡ some r) × (r.doc ≡ row.doc) × (r.hash ≡ row.hash)

upsert_config-Holds :
    (row : ConfigRow) (db : Db) {db' : Db} → upsert_config row db ≡ some db' → Holds row db'
unfolding upsert_config get_config first?
upsert_config-Holds row db {db'} h = elim (Bool-cases (is_taken row.registration_id row.name db)) [
  | inl t ↦ absurd (let h' : none ≡ some db' = rw (upsert_config, t) at h in ground arith)
  | inr n ↦ elim (Option-cases (get_config row.name db)) [
    | inl e ↦
        subst (Holds row) (some-inj (rw (upsert_config, n, e) at h))
          (row, rw ((=ₜ_iff row.name row.name).1 refl) refl, refl, refl)
    | inr (r, e) ↦
        let here : named row.name r ≡ true = first?-test (named row.name) db.configs e in
        let found =
          first?-update (named row.name) (named row.name) (overwrite row) db.configs (λ x. refl) in
        subst (Holds row) (some-inj (rw (upsert_config, n, e) at h))
          (overwrite row r, found ∙ rw (e, here) refl, refl, refl)
  ]
]

upsert_config-some :
    (row : ConfigRow) (db : Db)
    → is_taken row.registration_id row.name db ≡ false
    → (db' : Db) × (upsert_config row db ≡ some db')
unfolding upsert_config
upsert_config-some row db n = elim (Bool-cases (is_some (get_config row.name db))) [
  | inl t ↦
      let db' = record db { configs = update (named row.name) (overwrite row) db.configs } in
      (db', rw (upsert_config, n, t) refl)
  | inr f ↦
      let db' = record db { configs = row ∷ db.configs } in (db', rw (upsert_config, n, f) refl)
]

-- The document in the body of a request.
abbrev pub doc_in : Option Json → Option Json
doc_in none = none
doc_in (some body) = field "doc" body

module _ (p : Platform) where
  write_changes-SameRows :
      (name : Text) (now : ℕ) (ivs : List (List ℕ)) (changes : List (Text × Json)) (db : Db)
      {db' : Db}
      → write_changes p name now ivs changes db ≡ some db'
      → SameRows db db'
  unfolding write_changes delete_sip_secret
  write_changes-SameRows name now ivs [] db {db'} h =
      let same = some-inj h in (ap (λ x. x.configs) (sym same), ap (λ x. x.changes) (sym same))
  write_changes-SameRows name now [] ((id, str password) ∷ changes) db {db'} h =
      absurd (ground arith)
  write_changes-SameRows name now (iv ∷ ivs) ((id, str password) ∷ changes) db {db'} h =
      let (secret, e, h1) =
        >>=-some (encrypt_sip_password p.cipher p.encryption_key name id password iv) _ h in
      let (db1, e1, h2) =
        >>=-some
          (put_sip_secret
            (record { config_name = name; connection_id = id; secret = secret; updated_at = now })
            db)
          (write_changes p name now ivs changes) h1 in
      SameRows-trans db db1 db' (put_sip_secret-SameRows _ db e1)
        (write_changes-SameRows name now ivs changes db1 h2)
  write_changes-SameRows name now ivs ((id, null) ∷ changes) db h =
      write_changes-SameRows name now ivs changes (delete_sip_secret name id db) h
  write_changes-SameRows name now ivs ((id, bool b) ∷ changes) db h =
      write_changes-SameRows name now ivs changes (delete_sip_secret name id db) h
  write_changes-SameRows name now ivs ((id, num b) ∷ changes) db h =
      write_changes-SameRows name now ivs changes (delete_sip_secret name id db) h
  write_changes-SameRows name now ivs ((id, arr b) ∷ changes) db h =
      write_changes-SameRows name now ivs changes (delete_sip_secret name id db) h
  write_changes-SameRows name now ivs ((id, obj b) ∷ changes) db h =
      write_changes-SameRows name now ivs changes (delete_sip_secret name id db) h

  check_config-ok :
      (new_draft : Bool) (doc : Json) (toml : Text)
      → check_config p new_draft doc toml ≡ none
      → IsServed p doc × (toml ≡ p.render_toml doc)
  unfolding check_config
  check_config-ok new_draft doc toml h =
      elim (Option-cases (validate_sip_definition p.url_host (definition_of doc))) [
        | inl n ↦ absurd (some-none (rw (check_config, n) at h))
        | inr (errors, e) ↦ elim (Bool-cases (is_none_left (tolerated new_draft errors))) [
          | inr f ↦ absurd (some-none (rw (check_config, e, f) at h))
          | inl t ↦ elim (Bool-cases (toml =ₜ p.render_toml doc)) [
            | inr f ↦ absurd (some-none (rw (check_config, e, t, f) at h))
            | inl same ↦ (
              record {
                errors = errors;
                validated = e;
                draft = tolerated-draft new_draft errors (none_left-empty _ t);
              },
              (=ₜ_iff toml (p.render_toml doc)).0 same,
            )
          ]
        ]
      ]

  pending_put-IsFaithful :
      (name : Text) (now : ℕ) (new_id : Text) (doc : Json) (toml : Text)
      (changes : List (Text × Json)) (existing : Option ConfigRow) (db : Db)
      → IsServed p doc
      → toml ≡ p.render_toml doc
      → IsFaithful p (pending_put p name now new_id doc toml changes existing db).row
        × ((pending_put p name now new_id doc toml changes existing db).row.last_change_id ≡ none)
  unfolding pending_put
  pending_put-IsFaithful name now new_id doc toml changes existing db served rendered =
      (record { rendered = rendered; hashed = refl; served = served }, refl)

  prepare_save-IsFaithful :
      (body doc : Json) (toml name : Text) (now : ℕ) (new_id : Text) (db : Db) {w : PendingPut}
      → prepare_save p body doc toml name now new_id db ≡ inr w
      → IsFaithful p w.row × (w.row.last_change_id ≡ none) × (w.row.name ≡ name) × (w.row.doc ≡ doc)
  unfolding prepare_save pending_put
  prepare_save-IsFaithful body doc toml name now new_id db {w} h =
      let existing = get_config name db in
      let new_draft = is_true (field "draft" body) && is_none existing in
      let changes = entries (field "sip_secrets" body) in
      elim (Bool-cases (is_outdated (text_of (field "expected_hash" body)) existing)) [
        | inl t ↦ absurd (not_inr (rw (prepare_save, t) at h))
        | inr f ↦ elim (Option-cases (check_config p new_draft doc toml)) [
          | inr (reply, e) ↦ absurd (not_inr (rw (prepare_save, f, e) at h))
          | inl c ↦
              elim (Option-cases (check_secrets new_draft doc changes (list_sip_secrets name db))) [
                | inr (reason, e) ↦ absurd (not_inr (rw (prepare_save, f, c, e) at h))
                | inl k ↦
                    let (served, rendered) = check_config-ok new_draft doc toml c in
                    let same : pending_put p name now new_id doc toml changes existing db ≡ w =
                      sum-inj (rw (prepare_save, f, c, k) at h) in
                    let (faithful, unlogged) =
                      pending_put-IsFaithful name now new_id doc toml changes existing db served
                        rendered in
                    subst
                      (λ v.
                        IsFaithful p v.row
                        × (v.row.last_change_id ≡ none)
                        × (v.row.name ≡ name)
                        × (v.row.doc ≡ doc))
                      same (faithful, unlogged, refl, refl)
              ]
        ]
      ]

  write_put-IsConsistent :
      (w : PendingPut) (now : ℕ) (ivs : List (List ℕ)) (db : Db) {db' : Db}
      → IsFaithful p w.row × (w.row.last_change_id ≡ none)
      → IsConsistent p db
      → write_put p w now ivs db ≡ some db'
      → IsConsistent p db'
  unfolding write_put
  write_put-IsConsistent w now ivs db {db'} (f, l) c h =
      let (db1, e, h1) = >>=-some (upsert_config w.row db) _ h in
      let db2 = delete_sip_secrets w.row.name (ids_of w.removed) db1 in
      SameRows-IsConsistent p db2 db' (write_changes-SameRows w.row.name now ivs w.changes db2 h1) (
        SameRows-IsConsistent p db1 db2 (delete_sip_secrets-frame w.row.name (ids_of w.removed) db1)
          (upsert_config-IsConsistent p w.row db f l c e))

  prepare_put-IsFaithful :
      (body : Option Json) (name : Text) (now : ℕ) (new_id : Text) (db : Db) {w : PendingPut}
      → prepare_put p body name now new_id db ≡ inr w
      → IsFaithful p w.row
        × (w.row.last_change_id ≡ none)
        × (w.row.name ≡ name)
        × (doc_in body ≡ some w.row.doc)
  unfolding prepare_put field
  prepare_put-IsFaithful none name now new_id db {w} h = absurd (not_inr h)
  prepare_put-IsFaithful (some null) name now new_id db {w} h = absurd (not_inr h)
  prepare_put-IsFaithful (some (bool b)) name now new_id db {w} h = absurd (not_inr h)
  prepare_put-IsFaithful (some (num b)) name now new_id db {w} h = absurd (not_inr h)
  prepare_put-IsFaithful (some (str b)) name now new_id db {w} h = absurd (not_inr h)
  prepare_put-IsFaithful (some (arr b)) name now new_id db {w} h = absurd (not_inr h)
  prepare_put-IsFaithful (some (obj ms)) name now new_id db {w} h =
      elim (Option-cases (text_of (field "toml" (obj ms)))) [
        | inl n ↦ absurd (not_inr (rw (prepare_put, n) at h))
        | inr (toml, e) ↦ elim (Bool-cases (trim toml =ₜ [])) [
          | inl t ↦ absurd (not_inr (rw (prepare_put, e, t) at h))
          | inr f ↦ elim (Option-cases (field "doc" (obj ms))) [
            | inl n ↦ absurd (not_inr (rw (prepare_put, e, f, n) at h))
            | inr (doc, d) ↦ elim (Option-cases (check_body p doc)) [
              | inr (reason, k) ↦ absurd (not_inr (rw (prepare_put, e, f, d, k) at h))
              | inl k ↦
                  let (faithful, unlogged, same_name, same_doc) =
                    prepare_save-IsFaithful (obj ms) doc toml name now new_id db
                      (rw (prepare_put, e, f, d, k) at h) in
                  (faithful, unlogged, same_name, d ∙ ap (λ x. some x) (sym same_doc))
            ]
          ]
        ]
      ]

  pub put_one-IsConsistent :
      (body : Option Json) (name : Text) (now : ℕ) (new_id : Text) (ivs : List (List ℕ)) (db : Db)
      → IsConsistent p db
      → IsConsistent p (put_one p body name now new_id ivs db).1
  unfolding put_one
  put_one-IsConsistent body name now new_id ivs db c =
      elim (Sum-cases (prepare_put p body name now new_id db)) [
        | inl (reply, e) ↦ rw (put_one, e) c
        | inr (w, e) ↦ elim (Option-cases (write_put p w now ivs db)) [
          | inl n ↦ rw (put_one, e, n) c
          | inr (db', d) ↦
              let (faithful, unlogged, _, _) = prepare_put-IsFaithful body name now new_id db e in
              rw (put_one, e, d) (write_put-IsConsistent w now ivs db (faithful, unlogged) c d)
        ]
      ]

  -- A save without changes of passwords that passed its checks, the comparison with `expected_hash`
  -- among them, on some tables is written on any tables, whatever document and hash stand under its
  -- name there, where no other configuration has its registration id; the document of the
  -- configuration then is the one in its body, with the hash that was prepared.
  pub write_put-overwrites :
      (body : Option Json) (name : Text) (now : ℕ) (new_id : Text) (before : Db) {w : PendingPut}
      (later : ℕ) (ivs : List (List ℕ)) (db : Db)
      → prepare_put p body name now new_id before ≡ inr w
      → w.changes ≡ []
      → is_taken w.row.registration_id name db ≡ false
      → (db' : Db) × (write_put p w later ivs db ≡ some db')
        × ((r : ConfigRow) × (get_config name db' ≡ some r)
            × (some r.doc ≡ doc_in body)
            × (r.hash ≡ w.row.hash))
  unfolding write_put write_changes get_config
  write_put-overwrites body name now new_id before {w} later ivs db h none_changed free =
      let (_, _, same, doc) = prepare_put-IsFaithful body name now new_id before h in
      let untaken : is_taken w.row.registration_id w.row.name db ≡ false = rw same free in
      let (db1, e) = upsert_config-some w.row db untaken in
      let (r, g, d, k) = upsert_config-Holds w.row db e in
      let db2 = delete_sip_secrets w.row.name (ids_of w.removed) db1 in
      let kept = (delete_sip_secrets-frame w.row.name (ids_of w.removed) db1).0 in
      let found : get_config name db2 ≡ some r = rw (sym same, kept) g in
      (db2, rw (write_put, e, none_changed) refl, (r, found, ap (λ x. some x) d ∙ sym doc, k))
