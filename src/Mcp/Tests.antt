-- ===== src/Mcp/Tests.antt =====
-- A call of an agent on concrete tables.
use benis_phone.Common.{◌≡◌, refl, true, ◌⊎◌, inr, Option, none, some, List, [], ◌∷◌, ◌++◌}
use benis_phone.Common.Table.{first?}
use benis_phone.Common.Text.{Text, codes, has_text}
use benis_phone.OAuth.Store.{access, Client, Grant, Token, Store}
use benis_phone.OAuth.Platform.{Platform as OAuthPlatform, sha256_hex}
use benis_phone.OAuth.Bearer.{Actor}
use benis_phone.OAuth.Bearer.Sound.{IsAuthentic}
use benis_phone.Config.Json.{Json, obj, end, str, arr, nil, cons, member}
use benis_phone.Config.Patch.{Operation, add}
use benis_phone.Config.Secrets.{Cipher}
use benis_phone.Config.Store.{ConfigRow, SipSecretRow, Db, has_change_id}
use benis_phone.Config.Changes.{Platform}
use benis_phone.Mcp.{Tool, applies, handle_mcp}
use benis_phone.Mcp.Sound.{IsWrite, handle_mcp-IsWrite}

abbrev cipher : Cipher
cipher = record {
  atob = λ t. some t;
  btoa = λ bytes. bytes;
  encode = λ t. t;
  decode = λ bytes. bytes;
  stringify = λ j. [];
  parse = λ t. none;
  seal = λ key iv additional text. text;
  unseal = λ key iv additional text. some text;
}

abbrev platform : Platform
platform = record {
  cipher = cipher;
  encryption_key = codes "0123456789abcdef0123456789abcdef";
  sha256 = λ t. t;
  schema = λ j. inr j;
  render_toml = λ j. codes "t";
  url_host = λ t. none;
}

abbrev oauth : OAuthPlatform
oauth = record { sha256 = λ t. t; btoa = λ bytes. bytes; parse_url = λ t. none }

abbrev bearer : Text
bearer = codes "abcdefghijklmnopqrstuvwxyzabcdefghijkl"

abbrev client : Client
client = record {
  client_id = codes "client";
  client_name = codes "Agent";
  redirect_uris = [];
  created_at = 0;
}

abbrev grant : Grant
grant = record {
  grant_id = codes "g1";
  client_id = codes "client";
  access_identity = codes "anna";
  scope = codes "config:read config:write";
  created_at = 0;
  last_used_at = none;
  revoked_at = none;
}

abbrev token : Token
token = record {
  token_hash = sha256_hex oauth bearer;
  grant_id = codes "g1";
  kind = access;
  created_at = 0;
  expires_at = 5000;
  revoked_at = none;
}

abbrev store : Store
store = record {
  clients = client ∷ [];
  requests = [];
  grants = grant ∷ [];
  codes = [];
  tokens = token ∷ [];
}

abbrev hash : Text
hash = codes "0123456789abcdef0123456789abcdef0123456789abcdef0123456789abcdef"

abbrev connection : Json
connection = obj (
    member (codes "id") (str (codes "c1")) (
      member (codes "kind") (str (codes "endpoint")) (
        member (codes "registration") (str (codes "registered")) (
          member (codes "server") (str (codes "sip.example")) (
            member (codes "extension") (str (codes "100"))
              (member (codes "entrypoint") (str (codes "menu")) end))))))

abbrev doc_with : Json → Json
doc_with general = obj (
    member (codes "general") general (
      member (codes "sip") (obj (member (codes "connection") (arr (cons connection nil)) end)) (
        member (codes "fn") (arr (cons (obj (member (codes "name") (str (codes "menu")) end)) nil))
          (member (codes "queue") (arr nil) end))))

abbrev old_doc : Json
old_doc = doc_with (obj end)

abbrev secret : SipSecretRow
secret = record {
  config_name = codes "main";
  connection_id = codes "c1";
  secret = record { version = 1; iv = []; ciphertext = [] };
  updated_at = 1;
}

abbrev row : ConfigRow
row = record {
  name = codes "main";
  doc = old_doc;
  toml = codes "t";
  hash = hash;
  secret_revision = 0;
  registration_id = codes "r";
  last_change_id = none;
  created_at = 1;
  updated_at = 1;
}

abbrev db : Db
db = record { configs = row ∷ []; secrets = secret ∷ []; bundles = []; changes = [] }

abbrev patch : List Operation
patch = (record { op = add; path = codes "/general/note"; value = some (str (codes "hi")) }) ∷ []

abbrev header : Option Text
header = some (codes "Bearer " ++ bearer)

abbrev call : Tool
call = applies (codes "main") hash 10 patch

no_change : first? (has_change_id (codes "id1")) db.changes ≡ none
unfolding first?
no_change = refl

handle_mcp-IsWrite_example :
    (db ≡ (handle_mcp platform (λ t. true) oauth header call (codes "id1") 100 (store, db)).2)
    ⊎ ((a : Actor) × IsAuthentic oauth header 100 store a
        × (has_text a.scopes (codes "config:write") ≡ true)
        × IsWrite platform
            (λ t. true)
            call
            a
            (codes "id1")
            100
            db
            (handle_mcp platform (λ t. true) oauth header call (codes "id1") 100 (store, db)).2)
handle_mcp-IsWrite_example =
    handle_mcp-IsWrite platform (λ t. true) oauth header call (codes "id1") 100 store db no_change
