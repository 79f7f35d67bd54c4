-- ===== src/Config/Changes/Tests.antt =====
-- A patch and its rollback on concrete tables.
use benis_phone.Common.{ℕ, ◌≡◌, refl, inr, Option, none, some, List, [], ◌∷◌, length, drop}
use benis_phone.Common.Table.{first?, update, filter}
use benis_phone.Common.Text.{
  Text, codes, ◌=ₜ◌, hex, matches, has_text, trim, trim_start, split, split_first, distinct_from,
}
use benis_phone.Config.Json.{
  Json, str, arr, obj, nil, cons, end, member, size, get_item, get_member, set_member,
}
use benis_phone.Config.Pointer.{
  pointer_segments, escapes_ok, unescape, replace_pair, unsafe_segments, is_unsafe,
}
use benis_phone.Config.Patch.{
  Operation, add, apply_json_patch, apply_all, apply_operation, apply_segments, apply_below,
  edit_at, last_of, add_in, child, put_child, inherited,
}
use benis_phone.Config.Sip.{
  validate_sip_definition, all_errors, connection_errors, basic_errors, mode_errors, cidr_errors,
  kind_errors, route_errors, label_of, decimal, decimal_from, port_key, transport_of, fn_names,
  id_ok,
}
use benis_phone.Config.Document.{
  field, items, connections, connection_of, definition_of, texts_of, connection_ids, has_id,
  integer,
}
use benis_phone.Config.Store.{
  ConfigRow, SipSecretRow, ConfigActor, mcp, Db, get_config, list_sip_secrets, insert_change,
  has_change_id,
}
use benis_phone.Config.Secrets.{Cipher, stale_sip_secrets}
use benis_phone.Config.Changes.{
  Platform, PreparedChange, Applied, preview_of, missing_passwords, config_hash, prepared,
  prepare_document, prepare_patch, update_at_hash, delete_sip_secrets, change_row, commit_batch,
  commit_prepared, change_config, rollback_config_change,
}
use benis_phone.Config.Changes.Batch.{IsAudited}
use benis_phone.Config.Changes.Register.{
  is_ok, register, compare_and_swap, commit_prepared-compare_and_swap,
}
use benis_phone.Config.Changes.Sound.{IsApplied, change_config-IsApplied}
use benis_phone.Config.Changes.Rollback.{IsAcceptable, rollback_config_change-restores}

-- A platform whose digest and whose encryption hand the text through.
abbrev pub cipher : Cipher
cipher = record {
  atob = λ t. some t;
  btoa = λ bytes. bytes;
  encode = λ t. t;
  decode = λ bytes. bytes;
  stringify = λ j. [];
  parse = λ t. none;
  seal = λ key iv aad text. text;
  unseal = λ key iv aad text. some text;
}

abbrev pub platform : Platform
platform = record {
  cipher = cipher;
  encryption_key = [];
  sha256 = λ t. drop (length t) t;
  schema = λ j. inr j;
  render_toml = λ j. [];
  url_host = λ t. none;
}

abbrev pub connection : Json
connection = obj (
    member (codes "id") (str (codes "c1")) (
      member (codes "kind") (str (codes "endpoint")) (
        member (codes "registration") (str (codes "registered")) (
          member (codes "server") (str (codes "sip.example")) (
            member (codes "extension") (str (codes "100"))
              (member (codes "entrypoint") (str (codes "menu")) end))))))

abbrev pub doc_with : Json → Json
doc_with general = obj (
    member (codes "general") general (
      member (codes "sip") (obj (member (codes "connection") (arr (cons connection nil)) end)) (
        member (codes "fn") (arr (cons (obj (member (codes "name") (str (codes "menu")) end)) nil))
          (member (codes "queue") (arr nil) end))))

abbrev pub old_doc : Json
old_doc = doc_with (obj end)

abbrev pub new_doc : Json
new_doc = doc_with (obj (member (codes "note") (str (codes "hi")) end))

abbrev pub row_of : Json → Option Text → ℕ → ConfigRow
row_of doc last now = record {
  name = codes "main";
  doc = doc;
  toml = [];
  hash = [];
  secret_revision = 0;
  registration_id = codes "r";
  last_change_id = last;
  created_at = 1;
  updated_at = now;
}

abbrev pub secret : SipSecretRow
secret = record {
  config_name = codes "main";
  connection_id = codes "c1";
  secret = record { version = 1; iv = []; ciphertext = [] };
  updated_at = 1;
}

abbrev pub db : Db
db = record {
  configs = row_of old_doc none 1 ∷ [];
  secrets = secret ∷ [];
  bundles = [];
  changes = [];
}

abbrev pub agent : ConfigActor
agent = record { kind = mcp; id = codes "g1"; label = codes "Agent" }

abbrev pub patch : List Operation
patch = (record { op = add; path = codes "/general/note"; value = some (str (codes "hi")) }) ∷ []

abbrev db_after : Db
db_after = (change_config platform (codes "main") [] 10 patch agent none (codes "id1") 2 db).1

no_change : first? (has_change_id (codes "id1")) db.changes ≡ none
unfolding first?
no_change = refl

abbrev patched_to : Applied
patched_to = record {
  preview = record {
    name = codes "main";
    base_hash = [];
    resulting_hash = [];
    doc = new_doc;
    toml = [];
    diff =
        (record {
          op = add;
          path = codes "/general/note";
          before = none;
          after = some (str (codes "hi"));
        })
        ∷ [];
  };
  change_id = codes "id1";
  created_at = 2;
}

patched :
    change_config platform (codes "main") [] 10 patch agent none (codes "id1") 2 db
    ≡ (inr patched_to, db_after)
unfolding change_config prepare_patch prepare_document prepared commit_prepared commit_batch
    update_at_hash delete_sip_secrets change_row insert_change get_config list_sip_secrets first?
    update filter codes ◌=ₜ◌ apply_json_patch apply_all apply_operation apply_segments apply_below
    edit_at last_of add_in child put_child inherited pointer_segments escapes_ok unescape
    replace_pair unsafe_segments is_unsafe has_text get_member set_member split split_first
    validate_sip_definition all_errors connection_errors basic_errors mode_errors cidr_errors
    kind_errors route_errors label_of decimal decimal_from port_key transport_of fn_names id_ok
    field items connections connection_of definition_of texts_of connection_ids has_id integer
    missing_passwords stale_sip_secrets distinct_from config_hash hex matches trim trim_start size
    get_item preview_of
patched = refl

change_config-IsApplied_example :
    IsApplied platform (codes "main") [] 10 patch agent none (codes "id1") 2 db db_after
change_config-IsApplied_example =
    change_config-IsApplied platform (codes "main") [] 10 patch agent none (codes "id1") 2 db
      no_change patched

abbrev row_after : ConfigRow
row_after = row_of new_doc (some (codes "id1")) 2

found_after : get_config (codes "main") db_after ≡ some row_after
unfolding change_config prepare_patch prepare_document prepared commit_prepared commit_batch
    update_at_hash delete_sip_secrets change_row insert_change get_config list_sip_secrets first?
    update filter codes ◌=ₜ◌ apply_json_patch apply_all apply_operation apply_segments apply_below
    edit_at last_of add_in child put_child inherited pointer_segments escapes_ok unescape
    replace_pair unsafe_segments is_unsafe has_text get_member set_member split split_first
    validate_sip_definition all_errors connection_errors basic_errors mode_errors cidr_errors
    kind_errors route_errors label_of decimal decimal_from port_key transport_of fn_names id_ok
    field items connections connection_of definition_of texts_of connection_ids has_id integer
    missing_passwords stale_sip_secrets distinct_from config_hash hex matches trim trim_start size
    get_item preview_of
found_after = refl

fresh_after : first? (has_change_id (codes "id2")) db_after.changes ≡ none
unfolding change_config prepare_patch prepare_document prepared commit_prepared commit_batch
    update_at_hash delete_sip_secrets change_row insert_change get_config list_sip_secrets first?
    update filter codes ◌=ₜ◌ apply_json_patch apply_all apply_operation apply_segments apply_below
    edit_at last_of add_in child put_child inherited pointer_segments escapes_ok unescape
    replace_pair unsafe_segments is_unsafe has_text get_member set_member split split_first
    validate_sip_definition all_errors connection_errors basic_errors mode_errors cidr_errors
    kind_errors route_errors label_of decimal decimal_from port_key transport_of fn_names id_ok
    field items connections connection_of definition_of texts_of connection_ids has_id integer
    missing_passwords stale_sip_secrets distinct_from config_hash hex matches trim trim_start size
    get_item preview_of
fresh_after = refl

found : get_config (codes "main") db ≡ some (row_of old_doc none 1)
unfolding get_config first? codes ◌=ₜ◌
found = refl

acceptable : IsAcceptable platform (codes "main") db_after old_doc
unfolding change_config prepare_patch prepare_document prepared commit_prepared commit_batch
    update_at_hash delete_sip_secrets change_row insert_change get_config list_sip_secrets first?
    update filter codes ◌=ₜ◌ apply_json_patch apply_all apply_operation apply_segments apply_below
    edit_at last_of add_in child put_child inherited pointer_segments escapes_ok unescape
    replace_pair unsafe_segments is_unsafe has_text get_member set_member split split_first
    validate_sip_definition all_errors connection_errors basic_errors mode_errors cidr_errors
    kind_errors route_errors label_of decimal decimal_from port_key transport_of fn_names id_ok
    field items connections connection_of definition_of texts_of connection_ids has_id integer
    missing_passwords stale_sip_secrets distinct_from config_hash hex matches trim trim_start size
    get_item preview_of
acceptable = record { parsed = refl; listed = refl; validated = refl; passwords = refl }

rollback_config_change-restores_example :
    (a : Applied) × (db' : Db) × (row : ConfigRow) × (rollback_config_change platform
        (codes "main")
        []
        (codes "id1")
        10
        agent
        (codes "id2")
        3
        db_after
      ≡ (inr a, db'))
    × (get_config (codes "main") db' ≡ some row)
    × (row.doc ≡ old_doc)
rollback_config_change-restores_example =
    rollback_config_change-restores platform (codes "main") [] 10 patch agent none (codes "id1") 2
      db (row_of old_doc none 1) row_after 10 agent (codes "id2") 3 no_change patched found
      found_after acceptable refl fresh_after

audited : IsAudited db
unfolding first?
audited = record { names = (refl, tt); logged = (refl, tt) }

-- A change that was prepared for another document than the one that is there now.
abbrev outdated : PreparedChange
outdated = record {
  row = row_of old_doc none 1;
  doc = new_doc;
  toml = codes "t";
  hash = codes "h";
  secret_revision = 1;
  removed_secret_ids = codes "c1" ∷ [];
  patch = patch;
  diff = [];
}

commit_prepared-compare_and_swap_example :
    (is_ok (commit_prepared (codes "main") (codes "x") outdated agent none (codes "id1") 2 db).0
      ≡ (compare_and_swap (codes "main") (codes "x") (new_doc, codes "h") (register db)).0)
    × ((n : Text)
        → register
            (commit_prepared (codes "main") (codes "x") outdated agent none (codes "id1") 2 db).1
            n
          ≡ (compare_and_swap (codes "main") (codes "x") (new_doc, codes "h") (register db)).1 n)
commit_prepared-compare_and_swap_example =
    commit_prepared-compare_and_swap (codes "main") (codes "x") outdated agent none (codes "id1") 2
      db audited no_change
