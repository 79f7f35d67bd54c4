-- ===== src/Config/Changes.antt =====
-- The patches and rollbacks of ui/worker/lib/config-changes.ts: `preparePatch` reads and checks,
-- `commitPrepared` writes in one batch that goes through only if the hash is still the one that was
-- read. `applyJSONPatch` is `Config.Patch`.
mod Tests
pub mod Rollback
pub mod Sound
pub mod Prepared
pub mod Batch
pub mod Register
use benis_phone.Common.{
  ℕ, ◌+◌, String, Bool, true, false, not, ◌&&◌, ◌⊎◌, inl, inr, Option, none, some, List, [], ◌∷◌,
  ◌++◌, map, take, if◌then◌else◌, any,
}
use benis_phone.Common.Table.{first?, update}
use benis_phone.Common.Text.{Text, codes, ◌=ₜ◌, hex, distinct_from}
use benis_phone.Config.Json.{Json}
use benis_phone.Config.Patch.{Op, replace, Operation, DiffItem, Error, ok, err, apply_json_patch}
use benis_phone.Config.Sip.{
  Connection, Definition, or_default, as_text, decimal, validate_sip_definition,
}
use benis_phone.Config.Document.{connections, is_array, definition_of, document_ids}
use benis_phone.Config.Secrets.{Cipher, stale_sip_secrets}
use benis_phone.Config.Store.{
  ConfigRow, SipSecretRow, ConfigActor, ConfigChange, Db, named, get_config, list_sip_secrets,
  delete_sip_secret, insert_change, has_change_id,
}

-- What the code takes from other places: WebCrypto, the encryption key, SHA-256 of a text, the
-- generated schema (`safeParse`: a message and issues, or the parsed document), the printer
-- `renderToml`, and `new URL`.
pub record Platform : Type 0 where
  pub cipher : Cipher
  pub encryption_key : Text
  pub sha256 : Text → List ℕ
  pub schema : Json → (Text × List Text) ⊎ Json
  pub render_toml : Json → Text
  pub url_host : Text → Option Text

pub data ChangeError : Type 0 where
  not_found : ChangeError
  conflict : Option Text → ChangeError
  invalid_patch : Error → ChangeError
  validation : List Text → ChangeError
  -- Any other exception.
  exception : ChangeError

pub record PreparedChange : Type 0 where
  pub row : ConfigRow
  pub doc : Json
  pub toml : Text
  pub hash : Text
  pub secret_revision : ℕ
  pub removed_secret_ids : List Text
  pub patch : List Operation
  pub diff : List DiffItem

pub record Preview : Type 0 where
  pub name : Text
  pub base_hash : Text
  pub resulting_hash : Text
  pub doc : Json
  pub toml : Text
  pub diff : List DiffItem

pub record Applied : Type 0 where
  pub preview : Preview
  pub change_id : Text
  pub created_at : ℕ

unfoldable pub preview_of : PreparedChange → Preview
preview_of c = record {
  name = c.row.name;
  base_hash = c.row.hash;
  resulting_hash = c.hash;
  doc = c.doc;
  toml = c.toml;
  diff = c.diff;
}

abbrev pub is_of : Option Text → SipSecretRow → Bool
is_of none s = false
is_of (some id) s = s.connection_id =ₜ id

-- `secretIDs.has(connection.id)`
abbrev pub has_secret : List SipSecretRow → Connection → Bool
has_secret secrets c = any (is_of c.id) secrets

-- `${connection.name || connection.id}: a SIP password is required`
unfoldable pub password_required : Connection → Text
unfolding codes
password_required c = or_default c.name (as_text c.id) ++ codes ": a SIP password is required"

unfoldable pub missing_passwords : List SipSecretRow → List Connection → List Text
unfolding password_required
missing_passwords secrets [] = []
missing_passwords secrets (c ∷ cs) =
    let rest = missing_passwords secrets cs in
    if has_secret secrets c then rest else password_required c ∷ rest

abbrev pub ids_of : List SipSecretRow → List Text
ids_of = map (λ (s : SipSecretRow). s.connection_id)

abbrev pub bump {ℓ} : {A : Type ℓ} → List A → ℕ → ℕ
bump [] n = n
bump (_ ∷ _) n = n + 1

-- What the first statement of the batch writes.
abbrev pub changed : PreparedChange → Text → ℕ → ConfigRow → ConfigRow
changed c change_id now r = record r {
  doc = c.doc;
  toml = c.toml;
  hash = c.hash;
  secret_revision = c.secret_revision;
  updated_at = now;
  last_change_id = some change_id;
}

-- `WHERE name = ? AND hash = ?`
abbrev pub at_hash : Text → Text → ConfigRow → Bool
at_hash name hash r = named name r && (r.hash =ₜ hash)

unfoldable pub update_at_hash : Text → Text → PreparedChange → Text → ℕ → Db → Db
update_at_hash name hash c change_id now db = record db {
  configs = update (at_hash name hash) (changed c change_id now) db.configs;
}

unfoldable pub delete_sip_secrets : Text → List Text → Db → Db
unfolding delete_sip_secret
delete_sip_secrets name [] db = db
delete_sip_secrets name (id ∷ ids) db = delete_sip_secrets name ids (delete_sip_secret name id db)

-- The row of the audit log.
unfoldable pub change_row :
    Text → Text → PreparedChange → ConfigActor → Option Text → Text → ℕ → ConfigChange
change_row name base c actor source change_id now = record {
  change_id = change_id;
  config_name = name;
  actor = record actor { id = take 255 actor.id; label = take 255 actor.label };
  before_hash = base;
  after_hash = c.hash;
  patch = c.patch;
  diff = c.diff;
  before_doc = c.row.doc;
  after_doc = c.doc;
  source_change_id = source;
  created_at = now;
}

unfoldable pub commit_batch :
    Text → Text → PreparedChange → ConfigActor → Option Text → Text → ℕ → Db → Option Db
unfolding change_row update_at_hash delete_sip_secrets
commit_batch name base c actor source change_id now db =
    insert_change (change_row name base c actor source change_id now)
      (delete_sip_secrets name c.removed_secret_ids (update_at_hash name base c change_id now db))

-- The error where the batch fails.
unfoldable pub commit_error : Text → Text → Db → ChangeError
commit_error name base db = elim (get_config name db) [
  | none ↦ conflict none
  | some current ↦ if current.hash =ₜ base then exception else conflict (some current.hash)
]

unfoldable pub commit_prepared :
    Text
    → Text
    → PreparedChange
    → ConfigActor
    → Option Text
    → Text
    → ℕ
    → Db
    → (ChangeError ⊎ Applied) × Db
unfolding commit_batch commit_error preview_of
commit_prepared name base c actor source change_id now db =
    elim (commit_batch name base c actor source change_id now db) [
      | none ↦ (inl (commit_error name base db), db)
      | some db' ↦
          (inr (record { preview = preview_of c; change_id = change_id; created_at = now }), db')
    ]

unfoldable pub get_config_change : Text → Text → Db → Option ConfigChange
get_config_change name id db =
    first? (λ (c : ConfigChange). (c.config_name =ₜ name) && has_change_id id c) db.changes

abbrev pub is_none_left : List Text → Bool
is_none_left [] = true
is_none_left (_ ∷ _) = false

-- The patch that puts a document in place of the whole.
unfoldable pub restore : Json → List Operation
restore doc = let o : Operation = record { op = replace; path = []; value = some doc } in o ∷ []

module _ (p : Platform) where
  -- `sha256Hex(`${toml}\nsecret-revision:${secretRevision}`)`
  unfoldable pub config_hash : Text → ℕ → Text
  unfolding codes decimal
  config_hash toml revision =
      hex (p.sha256 (toml ++ (10 ∷ codes "secret-revision:") ++ decimal revision))

  unfoldable pub prepared :
      ConfigRow → Json → List SipSecretRow → List Operation → List DiffItem → PreparedChange
  unfolding config_hash
  prepared row doc secrets patch diff =
      let stale = stale_sip_secrets secrets (document_ids doc) in
      let c : PreparedChange = record {
        row = row;
        doc = doc;
        toml = p.render_toml doc;
        hash = config_hash (p.render_toml doc) (bump stale row.secret_revision);
        secret_revision = bump stale row.secret_revision;
        removed_secret_ids = ids_of stale;
        patch = patch;
        diff = diff;
      } in
      c

  -- From the parsed document on: the errors, and what is prepared if there is none. A document
  -- without a list of connections makes `doc.sip.connection.map` throw.
  unfoldable pub prepare_document :
      Text → ConfigRow → Json → List Operation → List DiffItem → Db → ChangeError ⊎ PreparedChange
  unfolding prepared missing_passwords
  prepare_document name row doc patch diff db =
      let secrets = list_sip_secrets name db in
      elim (validate_sip_definition p.url_host (definition_of doc)) [
        | none ↦ inl exception
        | some errors ↦
            let all = errors ++ missing_passwords secrets (definition_of doc).connection in
            if not (is_array (connections doc))
            then inl exception
            else if is_none_left all
            then inr (prepared row doc secrets patch diff)
            else inl (validation (distinct_from [] all))
      ]

  -- `bytes` is the length of the patch as JSON text.
  unfoldable pub prepare_patch :
      Text → Text → ℕ → List Operation → Db → ChangeError ⊎ PreparedChange
  unfolding prepare_document
  prepare_patch name base bytes patch db = elim (get_config name db) [
    | none ↦ inl not_found
    | some row ↦
        if not (row.hash =ₜ base)
        then inl (conflict (some row.hash))
        else elim (apply_json_patch bytes patch row.doc) [
          | err e ↦ inl (invalid_patch e)
          | ok (value, diff) ↦ elim (p.schema value) [
            | inl (message, issues) ↦ inl (validation issues)
            | inr doc ↦ prepare_document name row doc patch diff db
          ]
        ]
  ]

  unfoldable pub validate_config_patch :
      Text → Text → ℕ → List Operation → Db → ChangeError ⊎ Preview
  unfolding prepare_patch preview_of
  validate_config_patch name base bytes patch db = elim (prepare_patch name base bytes patch db) [
    | inl e ↦ inl e
    | inr c ↦ inr (preview_of c)
  ]

  -- Preparing and committing with nothing in between.
  unfoldable pub change_config :
      Text
      → Text
      → ℕ
      → List Operation
      → ConfigActor
      → Option Text
      → Text
      → ℕ
      → Db
      → (ChangeError ⊎ Applied) × Db
  unfolding prepare_patch commit_prepared
  change_config name base bytes patch actor source change_id now db =
      elim (prepare_patch name base bytes patch db) [
        | inl e ↦ (inl e, db)
        | inr c ↦ commit_prepared name base c actor source change_id now db
      ]

  unfoldable pub apply_config_patch :
      Text → Text → ℕ → List Operation → ConfigActor → Text → ℕ → Db → (ChangeError ⊎ Applied) × Db
  unfolding change_config
  apply_config_patch name base bytes patch actor change_id now db =
      change_config name base bytes patch actor none change_id now db

  unfoldable pub rollback_config_change :
      Text → Text → Text → ℕ → ConfigActor → Text → ℕ → Db → (ChangeError ⊎ Applied) × Db
  unfolding change_config restore get_config_change
  rollback_config_change name base source_id bytes actor change_id now db =
      elim (get_config_change name source_id db) [
        | none ↦ (inl not_found, db)
        | some source ↦
            change_config name base bytes (restore source.before_doc) actor (some source_id)
              change_id now db
      ]
