-- ===== src/Config/Save.antt =====
-- `putOne` of ui/worker/handlers/configs.ts: what it reads and checks (`prepare_put`) and the batch
-- that it writes (`write_put`), which tests nothing again.
use benis_phone.Common.{
  ◌>>=◌, ℕ, suc, ◌+◌, Bool, true, false, not, ◌&&◌, ◌||◌, ◌⊎◌, inl, inr, Option, none, some, List,
  [], ◌∷◌, if◌then◌else◌, is_none,
}
use benis_phone.Common.Table.{delete}
use benis_phone.Common.Text.{Text, codes, ◌=ₜ◌, trim, has_text}
use benis_phone.Config.Json.{Json, null, str, arr, obj, Items, nil, cons, Members, end, member}
use benis_phone.Config.Patch.{Error}
use benis_phone.Config.Sip.{Connection, as_text, decimal, validate_sip_definition}
use benis_phone.Config.Document.{
  field, text_of, is_true, is_complete, definition_of, document_ids, has_id, are_distinct,
}
use benis_phone.Config.Secrets.{stale_sip_secrets, encrypt_sip_password}
use benis_phone.Config.Store.{
  ConfigRow, SipSecretRow, Db, get_config, upsert_config, list_sip_secrets, delete_sip_secret,
  put_sip_secret,
}
use benis_phone.Config.Changes.{
  Platform, Applied, config_hash, ids_of, delete_sip_secrets, is_none_left,
}

-- Why a request is answered with status 400.
pub data Reason : Type 0 where
  invalid_json method_not_allowed invalid_name : Reason
  toml_required invalid_document incomplete_document toml_mismatch ids_not_unique : Reason
  config_errors : List Text → Reason
  unknown_connection bad_password : Text → Reason
  password_missing : Connection → Reason
  invalid_target target_exists : Reason
  patch_required patch_empty : Reason
  unknown_credential bad_credential : Text → Reason
  hash_required : Reason
  bad_patch : Error → Reason

pub record ConfigView : Type 0 where
  pub name : Text
  pub doc : Json
  pub toml : Text
  pub hash : Text
  pub created_at : ℕ
  pub updated_at : ℕ
  pub registration_id : Text
  pub sip_secret_state : List (Text × Bool)

-- `failed` is an exception, which ui/worker/index.ts answers with status 500; `forwarded` is left
-- to the broker.
pub data Reply : Type 0 where
  config : ConfigView → Reply
  credentials : List (Text × Bool) → Option (Text × ℕ) → Reply
  registration : Text → Reply
  configs : List (Text × Text) → Reply
  history : List Text → Reply
  applied : Applied → Reply
  no_content forwarded not_found failed : Reply
  conflict : Option Text → Reply
  bad_request : Reason → Reply

-- `Object.entries(value)`
unfoldable pub item_entries : ℕ → Items → List (Text × Json)
unfolding decimal
item_entries i nil = []
item_entries i (cons x xs) = (decimal i, x) ∷ item_entries (suc i) xs

unfoldable pub text_entries : ℕ → Text → List (Text × Json)
unfolding decimal
text_entries i [] = []
text_entries i (c ∷ s) = (decimal i, str (c ∷ [])) ∷ text_entries (suc i) s

unfoldable pub member_entries : Members → List (Text × Json)
member_entries end = []
member_entries (member k v ms) = (k, v) ∷ member_entries ms

abbrev pub entries_of : Json → List (Text × Json)
entries_of (obj ms) = member_entries ms
entries_of (arr xs) = item_entries 0 xs
entries_of (str s) = text_entries 0 s
entries_of _ = []

-- `Object.entries(value ?? {})`
abbrev pub entries : Option Json → List (Text × Json)
entries none = []
entries (some j) = entries_of j

-- `value !== null && (typeof value !== "string" || value.length === 0)`, negated.
abbrev pub is_password_change : Json → Bool
is_password_change null = true
is_password_change (str (_ ∷ _)) = true
is_password_change _ = false

abbrev pub is_hash : Option Text → Text → Bool
is_hash none hash = false
is_hash (some h) hash = h =ₜ hash

-- `existing && body.expected_hash !== existing.hash`
abbrev pub is_outdated : Option Text → Option ConfigRow → Bool
is_outdated expected none = false
is_outdated expected (some row) = not (is_hash expected row.hash)

abbrev pub revision_of : Option ConfigRow → ℕ
revision_of none = 0
revision_of (some row) = row.secret_revision

-- The first entry that the loop over `sip_secrets` refuses.
unfoldable pub refused_secret : List (Option Text) → List (Text × Json) → Option Reason
refused_secret ids [] = none
refused_secret ids ((id, password) ∷ changes) =
    if not (has_id ids id)
    then some (unknown_connection id)
    else if is_password_change password
    then refused_secret ids changes
    else some (bad_password id)

abbrev pub apply_secret : List Text → Text → Json → List Text
apply_secret ids id null = delete (λ t. t =ₜ id) ids
apply_secret ids id _ = id ∷ ids

-- `finalSecretIDs`, from the ids that are not removed.
unfoldable pub final_secret_ids : List Text → List (Text × Json) → List Text
final_secret_ids ids [] = ids
final_secret_ids ids ((id, password) ∷ changes) =
    final_secret_ids (apply_secret ids id password) changes

unfoldable pub kept_secret_ids : List SipSecretRow → List (Option Text) → List Text
kept_secret_ids rows ids = delete (λ t. not (has_id ids t)) (ids_of rows)

abbrev pub has_text? : List Text → Option Text → Bool
has_text? ids none = false
has_text? ids (some t) = has_text ids t

-- The first connection without a password.
unfoldable pub without_password : List Text → List Connection → Option Connection
without_password ids [] = none
without_password ids (c ∷ cs) = if has_text? ids c.id then without_password ids cs else some c

-- `validateSIPDefinition(doc).filter(…)`
unfoldable pub tolerated : Bool → List Text → List Text
unfolding codes
tolerated new_draft errors =
    delete (λ e. new_draft && (e =ₜ codes "Add at least one SIP connection.")) errors

abbrev pub or_else : Option Text → Text → Text
or_else none t = t
or_else (some s) t = s

-- What a save writes.
pub record PendingPut : Type 0 where
  pub row : ConfigRow
  pub removed : List SipSecretRow
  pub changes : List (Text × Json)

abbrev pub is_changed : List (Text × Json) → List SipSecretRow → Bool
is_changed [] [] = false
is_changed _ _ = true

abbrev pub add_if : Bool → ℕ → ℕ
add_if true n = n + 1
add_if false n = n

abbrev is_parsed : (Text × List Text) ⊎ Json → Bool
is_parsed (inl issues) = false
is_parsed (inr doc) = true

-- The state of the secrets in the answer.
abbrev is_set : Option Json → Bool → Bool
is_set none there = there
is_set (some null) there = false
is_set (some _) there = true

unfoldable pub entry_of : Text → List (Text × Json) → Option Json
entry_of id [] = none
entry_of id ((k, v) ∷ changes) = if k =ₜ id then some v else entry_of id changes

unfoldable pub secret_state :
    List (Option Text) → List (Text × Json) → List SipSecretRow → List (Text × Bool)
unfolding entry_of
secret_state [] changes rows = []
secret_state (id ∷ ids) changes rows =
    (as_text id, is_set (entry_of (as_text id) changes) (has_text? (ids_of rows) id))
    ∷ secret_state ids changes rows

unfoldable pub view_of : ConfigRow → List (Text × Bool) → ConfigView
view_of row state = record {
  name = row.name;
  doc = row.doc;
  toml = row.toml;
  hash = row.hash;
  created_at = row.created_at;
  updated_at = row.updated_at;
  registration_id = row.registration_id;
  sip_secret_state = state;
}

-- The checks of the secrets.
unfoldable pub check_secrets : Bool → Json → List (Text × Json) → List SipSecretRow → Option Reason
unfolding refused_secret without_password final_secret_ids kept_secret_ids
check_secrets new_draft doc changes rows = elim (refused_secret (document_ids doc) changes) [
  | some reason ↦ some reason
  | none ↦
      if new_draft
      then none
      else elim (without_password
          (final_secret_ids (kept_secret_ids rows (document_ids doc)) changes)
          (definition_of doc).connection) [ none ↦ none | some c ↦ some (password_missing c) ]
]

module _ (p : Platform) where
  unfoldable pub pending_put :
      Text → ℕ → Text → Json → Text → List (Text × Json) → Option ConfigRow → Db → PendingPut
  unfolding config_hash list_sip_secrets stale_sip_secrets
  pending_put name now new_id doc toml changes existing db =
      let removed = stale_sip_secrets (list_sip_secrets name db) (document_ids doc) in
      let revision = add_if (is_changed changes removed) (revision_of existing) in
      let row : ConfigRow = record {
        name = name;
        doc = doc;
        toml = toml;
        hash = config_hash p toml revision;
        secret_revision = revision;
        registration_id = elim existing [ none ↦ new_id | some r ↦ r.registration_id ];
        last_change_id = none;
        created_at = elim existing [ none ↦ now | some r ↦ r.created_at ];
        updated_at = now;
      } in
      let w : PendingPut = record { row = row; removed = removed; changes = changes } in w

  -- The checks of the document from `validateSIPDefinition` on.
  unfoldable pub check_config : Bool → Json → Text → Option Reply
  unfolding tolerated are_distinct has_id
  check_config new_draft doc toml = elim (validate_sip_definition p.url_host (definition_of doc)) [
    | none ↦ some failed
    | some errors ↦
        if not (is_none_left (tolerated new_draft errors))
        then some (bad_request (config_errors (tolerated new_draft errors)))
        else if not (toml =ₜ p.render_toml doc)
        then some (bad_request toml_mismatch)
        else if not (are_distinct (document_ids doc)) || has_id (document_ids doc) []
        then some (bad_request ids_not_unique)
        else none
  ]

  -- From a complete document on.
  unfoldable pub prepare_save : Json → Json → Text → Text → ℕ → Text → Db → Reply ⊎ PendingPut
  unfolding check_config check_secrets pending_put
  prepare_save body doc toml name now new_id db =
      let existing = get_config name db in
      let new_draft = is_true (field "draft" body) && is_none existing in
      let changes = entries (field "sip_secrets" body) in
      if is_outdated (text_of (field "expected_hash" body)) existing
      then inl (conflict (elim existing [ none ↦ none | some r ↦ some r.hash ]))
      else elim (check_config new_draft doc toml) [
        | some reply ↦ inl reply
        | none ↦ elim (check_secrets new_draft doc changes (list_sip_secrets name db)) [
          | some reason ↦ inl (bad_request reason)
          | none ↦ inr (pending_put name now new_id doc toml changes existing db)
        ]
      ]

  unfoldable pub check_body : Json → Option Reason
  unfolding is_complete
  check_body doc =
      if not (is_parsed (p.schema doc))
      then some invalid_document
      else if is_complete doc
      then none
      else some incomplete_document

  -- The body of the request is `none` where it is no JSON; a member of `null` throws.
  unfoldable pub prepare_put : Option Json → Text → ℕ → Text → Db → Reply ⊎ PendingPut
  unfolding field check_body prepare_save trim
  prepare_put none name now new_id db = inl (bad_request invalid_json)
  prepare_put (some null) name now new_id db = inl failed
  prepare_put (some body) name now new_id db = elim (text_of (field "toml" body)) [
    | none ↦ inl (bad_request toml_required)
    | some toml ↦
        if trim toml =ₜ [] then inl (bad_request toml_required) else elim (field "doc" body) [
          | none ↦ inl (bad_request invalid_document)
          | some doc ↦ elim (check_body doc) [
            | some reason ↦ inl (bad_request reason)
            | none ↦ prepare_save body doc toml name now new_id db
          ]
        ]
  ]

  -- The statements for `sip_secrets`; the vectors of the encryptions come in order, one for each. A value that is
  -- neither `null` nor a text does not come so far.
  unfoldable pub write_changes : Text → ℕ → List (List ℕ) → List (Text × Json) → Db → Option Db
  unfolding encrypt_sip_password put_sip_secret delete_sip_secret
  write_changes name now ivs [] db = some db
  write_changes name now ivs ((id, str password) ∷ changes) db = elim ivs [
    | [] ↦ none
    | iv ∷ rest ↦ encrypt_sip_password p.cipher p.encryption_key name id password iv >>= λ secret.
        put_sip_secret
          (record { config_name = name; connection_id = id; secret = secret; updated_at = now }) db
        >>= write_changes name now rest changes
  ]
  write_changes name now ivs ((id, _) ∷ changes) db =
      write_changes name now ivs changes (delete_sip_secret name id db)

  unfoldable pub write_put : PendingPut → ℕ → List (List ℕ) → Db → Option Db
  unfolding upsert_config delete_sip_secrets write_changes
  write_put w now ivs db = do
    db' ← upsert_config w.row db
    write_changes w.row.name now ivs w.changes
        (delete_sip_secrets w.row.name (ids_of w.removed) db')

  -- Preparing and writing with nothing in between.
  unfoldable pub put_one : Option Json → Text → ℕ → Text → List (List ℕ) → Db → Reply × Db
  unfolding prepare_put write_put secret_state view_of
  put_one body name now new_id ivs db = elim (prepare_put body name now new_id db) [
    | inl reply ↦ (reply, db)
    | inr w ↦ elim (write_put w now ivs db) [
      | none ↦ (failed, db)
      | some db' ↦ (
        config (
            view_of w.row
              (secret_state (document_ids w.row.doc) w.changes (list_sip_secrets name db))),
        db',
      )
    ]
  ]
