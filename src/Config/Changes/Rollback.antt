-- ===== src/Config/Changes/Rollback.antt =====
-- Rolling a patch back.
use benis_phone.Common.{
  ℕ, ◌≡◌, refl, ap, sym, ◌∙◌, true, false, inr, Option, none, some, List, [], ◌∷◌, ltb, some-inj,
}
use benis_phone.Common.Table.{first?}
use benis_phone.Common.Text.{Text}
use benis_phone.Config.Json.{Json}
use benis_phone.Config.Pointer.{pointer_segments, is_unsafe}
use benis_phone.Config.Patch.{
  Operation, DiffItem, replace, ok, max_patch_bytes, apply_root, apply_segments, apply_operation,
  apply_all, apply_json_patch,
}
use benis_phone.Config.Sip.{validate_sip_definition}
use benis_phone.Config.Document.{connections, is_array, definition_of}
use benis_phone.Config.Store.{
  ConfigRow, ConfigActor, ConfigChange, Db, get_config, list_sip_secrets, has_change_id,
}
use benis_phone.Config.Changes.{
  Platform, PreparedChange, Applied, missing_passwords, changed, prepared, restore,
  prepare_document, prepare_patch, commit_prepared, change_config, rollback_config_change,
  get_config_change, change_row, preview_of,
}
use benis_phone.Config.Changes.Batch.{written, logged_as, commit_batch-current, =ₜ-refl}
use benis_phone.Config.Changes.Sound.{change_config-IsApplied, current-written}
use benis_phone.Config.Changes.Prepared.{prepare_patch-IsPrepared}

module _ (p : Platform) where
  -- A document that the worker accepts with the secrets that are there.
  pub record IsAcceptable (name : Text) (db : Db) (doc : Json) : Type 0 where
    pub parsed : p.schema doc ≡ inr doc
    pub listed : is_array (connections doc) ≡ true
    pub validated : validate_sip_definition p.url_host (definition_of doc) ≡ some []
    pub passwords : missing_passwords (list_sip_secrets name db) (definition_of doc).connection ≡ []

  abbrev restored : Json → Json → DiffItem
  restored old new = record { op = replace; path = []; before = some old; after = some new }

  apply_json_patch-restore :
      (bytes : ℕ) (doc j : Json)
      → ltb max_patch_bytes bytes ≡ false
      → apply_json_patch bytes (restore doc) j ≡ ok (doc, restored j doc ∷ [])
  unfolding apply_json_patch apply_all apply_operation apply_segments apply_root restore
      pointer_segments is_unsafe
  apply_json_patch-restore bytes doc j h = rw h refl

  prepare_patch-restore :
      (name : Text) (bytes : ℕ) (doc : Json) (db : Db) {r : ConfigRow}
      → get_config name db ≡ some r
      → ltb max_patch_bytes bytes ≡ false
      → IsAcceptable name db doc
      → prepare_patch p name r.hash bytes (restore doc) db
        ≡ inr (prepared p r doc (list_sip_secrets name db) (restore doc) (restored r.doc doc ∷ []))
  unfolding prepare_patch prepare_document
  prepare_patch-restore name bytes doc db {r} e small ok_doc =
      rw
        (
          prepare_patch,
          e,
          =ₜ-refl r.hash,
          apply_json_patch-restore bytes doc r.doc small,
          ok_doc.parsed,
        )
        (rw (prepare_document, ok_doc.validated, ok_doc.listed, ok_doc.passwords) refl)

  change_config-restore :
      (name : Text) (bytes : ℕ) (doc : Json) (actor : ConfigActor) (source : Option Text)
      (id : Text) (now : ℕ) (db : Db) {r : ConfigRow}
      → get_config name db ≡ some r
      → ltb max_patch_bytes bytes ≡ false
      → IsAcceptable name db doc
      → first? (has_change_id id) db.changes ≡ none
      → (a : Applied) × (db' : Db) × (row : ConfigRow) × (change_config p name r.hash bytes
            (restore doc)
            actor
            source
            id
            now
            db
          ≡ (inr a, db'))
        × (get_config name db' ≡ some row)
        × (row.doc ≡ doc)
  unfolding change_config commit_prepared prepared get_config
  change_config-restore name bytes doc actor source id now db {r} e small ok_doc fresh =
      let secrets = list_sip_secrets name db in
      let c : PreparedChange = prepared p r doc secrets (restore doc) (restored r.doc doc ∷ []) in
      let found = prepare_patch-restore name bytes doc db e small ok_doc in
      let done =
        commit_batch-current name r.hash c actor source id now db fresh e (=ₜ-refl r.hash) in
      let sound = prepare_patch-IsPrepared p name r.hash bytes (restore doc) db found in
      let db' : Db = record (written name r.hash c actor source id now db) {
        changes =
            logged_as name r.hash c actor source id now db
            ∷ (written name r.hash c actor source id now db).changes;
      } in
      let a : Applied = record { preview = preview_of c; change_id = id; created_at = now } in
      (
        a,
        db',
        changed c id now r,
        rw (change_config, found, commit_prepared, done) refl,
        current-written p name r.hash bytes (restore doc) actor source id now db c sound,
        refl,
      )

  get_config_change-logged :
      (name id : Text) (db : Db) (c : ConfigChange) (cs : List ConfigChange) (doc : Json)
      → db.changes ≡ c ∷ cs
      → c.config_name ≡ name
      → c.change_id ≡ id
      → c.before_doc ≡ doc
      → (s : ConfigChange) × (get_config_change name id db ≡ some s) × (s.before_doc ≡ doc)
  unfolding get_config_change first?
  get_config_change-logged name id db c cs doc e n i d =
      (c, rw (e, n, i, =ₜ-refl name, =ₜ-refl id) refl, d)

  -- Where a configuration's document, which the schema gives back as it is, is acceptable with the
  -- secrets that a patch has left, the patch can be rolled back: under a change id that is not in
  -- the log and with the hash that the configuration has now, the rollback succeeds and the configuration
  -- has the document it had before the patch.
  pub rollback_config_change-restores :
      (name base : Text) (bytes : ℕ) (patch : List Operation) (actor : ConfigActor)
      (source : Option Text) (id : Text) (now : ℕ) (db : Db) {a : Applied} {db' : Db}
      (row row_now : ConfigRow) (bytes' : ℕ) (actor' : ConfigActor) (id' : Text) (now' : ℕ)
      → first? (has_change_id id) db.changes ≡ none
      → change_config p name base bytes patch actor source id now db ≡ (inr a, db')
      → get_config name db ≡ some row
      → get_config name db' ≡ some row_now
      → IsAcceptable name db' row.doc
      → ltb max_patch_bytes bytes' ≡ false
      → first? (has_change_id id') db'.changes ≡ none
      → (a' : Applied) × (db'' : Db) × (row' : ConfigRow) × (rollback_config_change p name
            row_now.hash id bytes' actor' id' now' db'
          ≡ (inr a', db''))
        × (get_config name db'' ≡ some row')
        × (row'.doc ≡ row.doc)
  unfolding rollback_config_change change_row get_config
  rollback_config_change-restores name base bytes patch actor source id now db {a} {db'} row row_now
        bytes' actor' id' now' fresh h e e' ok_doc small fresh' =
      let r = change_config-IsApplied p name base bytes patch actor source id now db fresh h in
      let before = ap (λ x. x.doc) (some-inj (sym r.checked.current ∙ e)) in
      let (logged, found, same) =
        get_config_change-logged name id db' (change_row name base r.change actor source id now)
          db.changes row.doc r.logged refl refl before in
      rw (rollback_config_change, found, same)
        (change_config-restore name bytes' row.doc actor' (some id) id' now' db' e' small ok_doc
          fresh')
