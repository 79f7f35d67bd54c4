-- ===== src/Config/Api.antt =====
-- The other requests of ui/worker/handlers/configs.ts and the routes of `handleApi`.

use benis_phone.Common.{
  ◌>>=◌, ℕ, suc, Bool, true, false, not, ◌⊎◌, inl, inr, Option, none, some, List, [], ◌∷◌, map,
  if◌then◌else◌, is_some, length, ◌==◌,
}
use benis_phone.Common.Table.{update}
use benis_phone.Common.Text.{Text, codes, has_text}
use benis_phone.Config.Json.{Json, null, str, arr, obj}
use benis_phone.Config.Document.{field, text_of, document_ids}
use benis_phone.Config.Secrets.{
  CredentialBundle, credential_keys, credential_state, set_credential, filter_sip_secrets,
  encrypt_sip_password, decrypt_sip_password, encrypt_credential_bundle, get_credential_bundle,
}
use benis_phone.Config.Store.{
  ConfigRow, SipSecretRow, ConfigActor, human, Db, is_config_name, named, is_taken, get_config,
  upsert_config, list_sip_secrets, put_sip_secret, put_credential_bundle, delete_config,
}
use benis_phone.Config.Changes.{
  Platform, ChangeError, Applied, config_hash, bump, rollback_config_change,
}
use benis_phone.Config.Save.{
  Reason, invalid_json, config_errors, invalid_target, target_exists, patch_required, patch_empty,
  unknown_credential, bad_credential, hash_required, bad_patch, Reply, config, credentials,
  registration, applied, no_content, not_found, failed, conflict, bad_request, entries,
  is_password_change, is_hash, view_of,
}

-- The answer of a request that changes the tables; a failed statement leaves them as they were.
abbrev pub committed : Option Db → Reply → Db → Reply × Db
committed none reply db = (failed, db)
committed (some db') reply db = (reply, db')

unfoldable pub delete_one : Text → Db → Reply × Db
unfolding get_config delete_config
delete_one name db = elim (get_config name db) [
  | none ↦ (not_found, db)
  | some row ↦ (no_content, delete_config name db)
]

-- `${…}` of a member of the request that is a text; other values are left out.
abbrev pub target_of : Json → Text
target_of body = elim (text_of (field "name" body)) [ none ↦ codes "undefined" | some t ↦ t ]

abbrev pub set_states : List SipSecretRow → List (Text × Bool)
set_states = map (λ (s : SipSecretRow). (s.connection_id, true))

abbrev pub is_null : Json → Bool
is_null null = true
is_null _ = false

abbrev pub is_object : Option Json → Bool
is_object (some (obj _)) = true
is_object (some (arr _)) = true
is_object _ = false

-- The first entry that the loop over the patch refuses.
unfoldable pub refused_credential : List (Text × Json) → Option Reason
refused_credential [] = none
refused_credential ((key, value) ∷ changes) =
    if not (has_text credential_keys key)
    then some (unknown_credential key)
    else if is_password_change value
    then refused_credential changes
    else some (bad_credential key)

module _ (p : Platform) where
  -- The secrets of the source, each decrypted and encrypted for the target, with a vector for each.
  unfoldable pub copy_secrets : Text → ℕ → List (List ℕ) → List SipSecretRow → Db → Option Db
  unfolding decrypt_sip_password encrypt_sip_password put_sip_secret
  copy_secrets target now ivs [] db = some db
  copy_secrets target now [] (s ∷ rows) db = none
  copy_secrets target now (iv ∷ ivs) (s ∷ rows) db = do
    password ← decrypt_sip_password p.cipher p.encryption_key s
    secret ← encrypt_sip_password p.cipher p.encryption_key target s.connection_id password iv
    db' ←
        put_sip_secret
          (record {
            config_name = target;
            connection_id = s.connection_id;
            secret = secret;
            updated_at = now;
          })
          db
    copy_secrets target now ivs rows db'

  unfoldable pub copied_row : Text → Text → ℕ → ℕ → ConfigRow → ConfigRow
  unfolding config_hash
  copied_row target new_id revision now source = record source {
    name = target;
    hash = config_hash p source.toml revision;
    secret_revision = revision;
    registration_id = new_id;
    last_change_id = none;
    created_at = now;
    updated_at = now;
  }

  unfoldable pub copy_batch :
      ConfigRow → List SipSecretRow → Text → ℕ → List (List ℕ) → Db → Option Db
  unfolding copy_secrets upsert_config
  copy_batch row rows target now ivs db = upsert_config row db >>= copy_secrets target now ivs rows

  unfoldable pub copy_config : ConfigRow → Text → Text → ℕ → Text → List (List ℕ) → Db → Reply × Db
  unfolding copied_row copy_batch filter_sip_secrets view_of
  copy_config source from target now new_id ivs db =
      let rows = filter_sip_secrets (list_sip_secrets from db) (document_ids source.doc) in
      let row = copied_row target new_id (bump rows 0) now source in
      committed (copy_batch row rows target now ivs db) (config (view_of row (set_states rows))) db

  unfoldable pub duplicate_named : Json → Text → ℕ → Text → List (List ℕ) → Db → Reply × Db
  unfolding copy_config get_config is_config_name codes field
  duplicate_named body from now new_id ivs db =
      if not (is_config_name (target_of body))
      then (bad_request invalid_target, db)
      else elim (get_config from db) [
        | none ↦ (not_found, db)
        | some source ↦ elim (text_of (field "name" body)) [
          | none ↦ (failed, db)
          | some target ↦
              if is_some (get_config target db)
              then (bad_request target_exists, db)
              else copy_config source from target now new_id ivs db
        ]
      ]

  unfoldable pub duplicate : Option Json → Text → ℕ → Text → List (List ℕ) → Db → Reply × Db
  unfolding duplicate_named
  duplicate none from now new_id ivs db = (bad_request invalid_json, db)
  duplicate (some body) from now new_id ivs db =
      if is_null body then (failed, db) else duplicate_named body from now new_id ivs db

  unfoldable pub get_credentials : Text → Db → Reply
  unfolding get_config get_credential_bundle credential_state
  get_credentials name db = elim (get_config name db) [
    | none ↦ not_found
    | some row ↦ elim (get_credential_bundle p.cipher p.encryption_key name db) [
      | none ↦ failed
      | some bundle ↦ credentials (credential_state bundle) none
    ]
  ]

  abbrev value_of : Json → Text
  value_of (str s) = s
  value_of _ = []

  unfoldable pub set_credentials : List (Text × Json) → CredentialBundle → CredentialBundle
  unfolding set_credential
  set_credentials [] bundle = bundle
  set_credentials ((key, value) ∷ changes) bundle =
      set_credentials changes (set_credential key (value_of value) bundle)

  -- `UPDATE configs SET secret_revision = ?, hash = ?, updated_at = ? WHERE name = ?`
  unfoldable pub update_revision : Text → ℕ → Text → ℕ → Db → Db
  update_revision name revision hash now db = record db {
    configs =
        update (named name)
          (λ (r : ConfigRow). record r {
            secret_revision = revision;
            hash = hash;
            updated_at = now;
          })
          db.configs;
  }

  -- The batch, for the row and the bundle that were read.
  unfoldable pub write_credentials :
      ConfigRow → Text → CredentialBundle → ℕ → List ℕ → Db → Option Db
  unfolding encrypt_credential_bundle put_credential_bundle update_revision config_hash
  write_credentials row name bundle now iv db = do
    secret ← encrypt_credential_bundle p.cipher p.encryption_key name bundle iv
    db' ←
        put_credential_bundle (record { config_name = name; secret = secret; updated_at = now }) db
    some (
        update_revision name (suc row.secret_revision)
          (config_hash p row.toml (suc row.secret_revision)) now db')

  unfoldable pub save_credentials :
      ConfigRow → Text → List (Text × Json) → ℕ → List ℕ → Db → Reply × Db
  unfolding get_credential_bundle set_credentials write_credentials credential_state config_hash
  save_credentials row name changes now iv db =
      elim (get_credential_bundle p.cipher p.encryption_key name db) [
        | none ↦ (failed, db)
        | some old ↦
            let bundle = set_credentials changes old in
            committed (write_credentials row name bundle now iv db)
              (credentials (credential_state bundle)
                (some (config_hash p row.toml (suc row.secret_revision), now)))
              db
      ]

  unfoldable pub patch_credentials : Option Json → Text → ℕ → List ℕ → Db → Reply × Db
  unfolding get_config refused_credential save_credentials field
  patch_credentials body name now iv db = elim (get_config name db) [
    | none ↦ (not_found, db)
    | some row ↦ elim body [
      | none ↦ (bad_request invalid_json, db)
      | some b ↦
          if not (is_hash (text_of (field "expected_hash" b)) row.hash)
          then (if is_null b then failed else conflict (some row.hash), db)
          else if not (is_object (field "patch" b))
          then (bad_request patch_required, db)
          else if length (entries (field "patch" b)) == 0
          then (bad_request patch_empty, db)
          else elim (refused_credential (entries (field "patch" b))) [
            | some reason ↦ (bad_request reason, db)
            | none ↦ save_credentials row name (entries (field "patch" b)) now iv db
          ]
    ]
  ]

  abbrev reply_of : ChangeError ⊎ Applied → Reply
  reply_of (inr a) = applied a
  reply_of (inl ChangeError.not_found) = not_found
  reply_of (inl (ChangeError.conflict hash)) = conflict hash
  reply_of (inl (ChangeError.invalid_patch e)) = bad_request (bad_patch e)
  reply_of (inl (ChangeError.validation errors)) = bad_request (config_errors errors)
  reply_of (inl ChangeError.exception) = failed

  abbrev pub rolled_back : (ChangeError ⊎ Applied) × Db → Reply × Db
  rolled_back (result, db) = (reply_of result, db)

  abbrev pub human_actor : Text → ConfigActor
  human_actor identity = record { kind = human; id = identity; label = identity }

  -- `identity` is `accessIdentity(req)`; `bytes` is the length of the patch as JSON text.
  unfoldable pub rollback : Option Json → Text → Text → Text → ℕ → Text → ℕ → Db → Reply × Db
  unfolding rollback_config_change field
  rollback none name source_id identity bytes change_id now db = (bad_request invalid_json, db)
  rollback (some body) name source_id identity bytes change_id now db =
      if is_null body then (failed, db) else elim (text_of (field "expected_hash" body)) [
        | none ↦ (bad_request hash_required, db)
        | some hash ↦ rolled_back (
            rollback_config_change p name hash source_id bytes (human_actor identity) change_id now
              db)
      ]

  unfoldable pub get_registration : Text → Db → Reply
  unfolding get_config
  get_registration name db = elim (get_config name db) [
    | none ↦ not_found
    | some row ↦ registration row.registration_id
  ]

  unfoldable pub rotate_registration : Text → ℕ → Text → Db → Reply × Db
  unfolding get_config
  rotate_registration name now new_id db = elim (get_config name db) [
    | none ↦ (not_found, db)
    | some row ↦ if is_taken new_id name db then (failed, db) else (
      registration new_id,
      record db {
        configs =
            update (named name)
              (λ (r : ConfigRow). record r { registration_id = new_id; updated_at = now })
              db.configs;
      },
    )
  ]

  unfoldable pub get_one : Text → Db → Reply
  unfolding get_config view_of list_sip_secrets
  get_one name db = elim (get_config name db) [
    | none ↦ not_found
    | some row ↦ config (view_of row (set_states (list_sip_secrets name db)))
  ]
