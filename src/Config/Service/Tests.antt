-- ===== src/Config/Service/Tests.antt =====
-- Requests on concrete tables.
use benis_phone.Common.{◌≡◌, refl, String, true, false, inr, Option, none, some, List, [], ◌∷◌}
use benis_phone.Common.Table.{first?, delete}
use benis_phone.Common.Text.{codes, ◌=ₜ◌, distinct_from, has_text}
use benis_phone.Config.Json.{Json, get_member, bool, str, arr, obj, nil, end, member}
use benis_phone.Config.Patch.{Operation, add}
use benis_phone.Config.Store.{ConfigRow, ConfigActor, mcp, Db, is_taken, get_config}
use benis_phone.Config.Secrets.{Cipher}
use benis_phone.Config.Sip.{validate_sip_definition, all_errors}
use benis_phone.Config.Document.{field, definition_of, items, connection_ids}
use benis_phone.Config.Changes.{Platform}
use benis_phone.Config.Save.{
  PendingPut, pending_put, prepare_save, check_config, check_secrets, check_body, prepare_put,
  write_put,
}
use benis_phone.Config.Routes.{Request, is_method, handle_api}
use benis_phone.Config.Routes.Frames.{handle_api-reads}
use benis_phone.Config.Service.{Event, requests, patches, run}
use benis_phone.Config.Service.Consistent.{IsConsistent}
use benis_phone.Config.Service.Invariant.{run-IsConsistent}
use benis_phone.Config.Service.Saves.{doc_in, write_put-overwrites}

abbrev cipher : Cipher
cipher = record {
  atob = λ t. some t;
  btoa = λ bytes. bytes;
  encode = λ t. t;
  decode = λ bytes. bytes;
  stringify = λ j. [];
  parse = λ t. none;
  seal = λ key iv additional text. text;
  unseal = λ key iv additional text. some text;
}

abbrev platform : Platform
platform = record {
  cipher = cipher;
  encryption_key = codes "0123456789abcdef0123456789abcdef";
  sha256 = λ t. t;
  schema = λ j. inr j;
  render_toml = λ j. codes "t";
  url_host = λ t. none;
}

-- The document of a draft.
abbrev doc : Json
doc = obj (
    member (codes "general") (obj end) (
      member (codes "sip") (obj (member (codes "connection") (arr nil) end))
        (member (codes "fn") (arr nil) (member (codes "queue") (arr nil) end))))

abbrev body : Json
body = obj (
    member (codes "doc") doc
      (member (codes "toml") (str (codes "t")) (member (codes "draft") (bool true) end)))

abbrev request : String → Option Json → Request
request method body = record {
  method = codes method;
  rest = codes "/main";
  upgrade = none;
  body = body;
  identity = codes "anna";
  now = 5;
  new_id = codes "r1";
  ivs = [];
  patch_bytes = 0;
}

abbrev agent : ConfigActor
agent = record { kind = mcp; id = codes "g1"; label = codes "Agent" }

abbrev patch : List Operation
patch = (record { op = add; path = codes "/general/note"; value = some (str (codes "hi")) }) ∷ []

abbrev empty : Db
empty = record { configs = []; secrets = []; bundles = []; changes = [] }

abbrev saves : List Event
saves =
    requests (request "PUT" (some body))
    ∷ patches (codes "main") (codes "h") 10 patch agent (codes "id1") 6
    ∷ requests (request "DELETE" none)
    ∷ []

run-IsConsistent_example : IsConsistent platform (run platform (λ t. some t) saves empty)
run-IsConsistent_example =
    run-IsConsistent platform (λ t. some t) saves empty
      (record { rows = tt; audited = record { names = tt; logged = tt } })

abbrev row_of : String → ConfigRow
row_of hash = record {
  name = codes "main";
  doc = doc;
  toml = codes "t";
  hash = codes hash;
  secret_revision = 0;
  registration_id = codes "r";
  last_change_id = none;
  created_at = 1;
  updated_at = 1;
}

abbrev db : Db
db = record { configs = row_of "theirs" ∷ []; secrets = []; bundles = []; changes = [] }

gets : is_method "GET" (request "GET" none) ≡ true
unfolding codes ◌=ₜ◌
gets = refl

handle_api-reads_example : (handle_api platform (λ t. some t) (request "GET" none) db).1 ≡ db
handle_api-reads_example = handle_api-reads platform (λ t. some t) (request "GET" none) gets db

-- A save of a new draft that was checked before another request made a configuration of its name.
abbrev drafted : PendingPut
drafted = pending_put platform (codes "main") 5 (codes "r1") doc (codes "t") [] none empty

prepares : prepare_put platform (some body) (codes "main") 5 (codes "r1") empty ≡ inr drafted
unfolding prepare_put prepare_save check_config check_secrets check_body codes ◌=ₜ◌ get_member
    get_config first? validate_sip_definition all_errors definition_of items delete distinct_from
    has_text connection_ids
prepares = refl

free : is_taken (codes "r1") (codes "main") db ≡ false
unfolding codes ◌=ₜ◌ first?
free = refl

unchanged : drafted.changes ≡ []
unfolding pending_put
unchanged = refl

write_put-overwrites_example :
    (db' : Db) × (write_put platform drafted 6 [] db ≡ some db')
    × ((r : ConfigRow) × (get_config (codes "main") db' ≡ some r)
        × (some r.doc ≡ some doc)
        × (r.hash ≡ drafted.row.hash))
unfolding pending_put doc_in field codes ◌=ₜ◌ get_member
write_put-overwrites_example =
    write_put-overwrites platform (some body) (codes "main") 5 (codes "r1") empty 6 [] db prepares
      unchanged free
