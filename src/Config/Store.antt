-- ===== src/Config/Store.antt =====
-- The tables `configs`, `sip_secrets`, `credential_bundles` and `config_changes` of
-- ui/worker/migrations, and the statements of ui/worker/lib/db.ts, secrets.ts and config-changes.ts
-- on them. The columns `doc`, `patch` and `diff` hold a JSON value in place of its text; `none` is a
-- statement that fails, which undoes the batch it is in.
use benis_phone.Common.{
  ℕ, Bool, false, not, ◌&&◌, Option, none, some, List, ◌∷◌, if◌then◌else◌, is_some, is_none,
}
use benis_phone.Common.Table.{first?, update, delete, filter}
use benis_phone.Common.Text.{Text, ◌=ₜ◌, matches, is_word_dash}
use benis_phone.Config.Json.{Json}
use benis_phone.Config.Patch.{Operation, DiffItem}

pub record ConfigRow : Type 0 where
  pub name : Text
  pub doc : Json
  pub toml : Text
  pub hash : Text
  pub secret_revision : ℕ
  pub registration_id : Text
  pub last_change_id : Option Text
  pub created_at : ℕ
  pub updated_at : ℕ

pub record EncryptedSecret : Type 0 where
  pub version : ℕ
  pub iv : Text
  pub ciphertext : Text

pub record SipSecretRow : Type 0 where
  pub config_name : Text
  pub connection_id : Text
  pub secret : EncryptedSecret
  pub updated_at : ℕ

pub record CredentialBundleRow : Type 0 where
  pub config_name : Text
  pub secret : EncryptedSecret
  pub updated_at : ℕ

pub data ActorKind : Type 0 where
  mcp human : ActorKind

pub record ConfigActor : Type 0 where
  pub kind : ActorKind
  pub id : Text
  pub label : Text

pub record ConfigChange : Type 0 where
  pub change_id : Text
  pub config_name : Text
  pub actor : ConfigActor
  pub before_hash : Text
  pub after_hash : Text
  pub patch : List Operation
  pub diff : List DiffItem
  pub before_doc : Json
  pub after_doc : Json
  pub source_change_id : Option Text
  pub created_at : ℕ

pub record Db : Type 0 where
  pub configs : List ConfigRow
  pub secrets : List SipSecretRow
  pub bundles : List CredentialBundleRow
  pub changes : List ConfigChange

-- `NAME_RE` of ui/worker/handlers/configs.ts.
unfoldable pub is_config_name : Text → Bool
unfolding matches
is_config_name = matches is_word_dash 1 64

abbrev pub named : Text → ConfigRow → Bool
named name r = r.name =ₜ name

unfoldable pub get_config : Text → Db → Option ConfigRow
get_config name db = first? (named name) db.configs

-- The unique index on `registration_id`, for a row of the given name.
abbrev pub is_taken : Text → Text → Db → Bool
is_taken id name db =
    is_some (first? (λ (r : ConfigRow). (r.registration_id =ₜ id) && not (named name r)) db.configs)

-- What `ON CONFLICT(name) DO UPDATE` keeps of the old row.
abbrev pub overwrite : ConfigRow → ConfigRow → ConfigRow
overwrite row r = record row {
  name = r.name;
  last_change_id = r.last_change_id;
  created_at = r.created_at;
}

unfoldable pub upsert_config : ConfigRow → Db → Option Db
upsert_config row db =
    if is_taken row.registration_id row.name db
    then none
    else if is_some (get_config row.name db)
    then some (record db { configs = update (named row.name) (overwrite row) db.configs })
    else some (record db { configs = row ∷ db.configs })

abbrev pub of_connection : Text → Text → SipSecretRow → Bool
of_connection name id s = (s.config_name =ₜ name) && (s.connection_id =ₜ id)

unfoldable pub list_sip_secrets : Text → Db → List SipSecretRow
list_sip_secrets name db = filter (λ (s : SipSecretRow). s.config_name =ₜ name) db.secrets

unfoldable pub delete_sip_secret : Text → Text → Db → Db
delete_sip_secret name id db = record db { secrets = delete (of_connection name id) db.secrets }

-- An insertion behind a foreign key on the name of a configuration.
unfoldable pub put_sip_secret : SipSecretRow → Db → Option Db
put_sip_secret row db =
    if is_none (get_config row.config_name db)
    then none
    else if is_some (first? (of_connection row.config_name row.connection_id) db.secrets)
    then some (record db {
      secrets = update (of_connection row.config_name row.connection_id) (λ s. row) db.secrets;
    })
    else some (record db { secrets = row ∷ db.secrets })

unfoldable pub put_credential_bundle : CredentialBundleRow → Db → Option Db
put_credential_bundle row db =
    if is_none (get_config row.config_name db)
    then none
    else if is_some
        (first? (λ (b : CredentialBundleRow). b.config_name =ₜ row.config_name) db.bundles)
    then some (record db {
      bundles =
          update (λ (b : CredentialBundleRow). b.config_name =ₜ row.config_name) (λ b. row)
            db.bundles;
    })
    else some (record db { bundles = row ∷ db.bundles })

-- `DELETE FROM configs WHERE name = ?`, with the rows that go by `ON DELETE CASCADE`.
unfoldable pub delete_config : Text → Db → Db
delete_config name db = record {
  configs = delete (named name) db.configs;
  secrets = delete (λ (s : SipSecretRow). s.config_name =ₜ name) db.secrets;
  bundles = delete (λ (b : CredentialBundleRow). b.config_name =ₜ name) db.bundles;
  changes = delete (λ (c : ConfigChange). c.config_name =ₜ name) db.changes;
}

abbrev pub is_id : Text → Option Text → Bool
is_id id none = false
is_id id (some t) = t =ₜ id

-- The row that the trigger `config_changes_require_committed_config` asks for.
abbrev pub is_committed : ConfigChange → ConfigRow → Bool
is_committed c r =
    named c.config_name r && ((r.hash =ₜ c.after_hash) && is_id c.change_id r.last_change_id)

abbrev pub has_change_id : Text → ConfigChange → Bool
has_change_id id c = c.change_id =ₜ id

unfoldable pub insert_change : ConfigChange → Db → Option Db
insert_change c db =
    if is_none (first? (is_committed c) db.configs)
    then none
    else if is_some (first? (has_change_id c.change_id) db.changes)
    then none
    else some (record db { changes = c ∷ db.changes })
