-- ===== src/OAuth/Tests.antt =====
-- Runs of the OAuth requests on concrete tables.
use benis_phone.Common.{◌≡◌, ◌≢◌, refl, String, true, none, some, [], ◌∷◌, ◌++◌}
use benis_phone.Common.Table.{first?, update, count}
use benis_phone.Common.Text.{
  Text, codes, ◌=ₜ◌, matches, hex, hex_byte, hex_digit, strip_prefix, words, words_from,
}
use benis_phone.OAuth.Store.{Kind, access, refresh, Client, Grant, Code, Token, Store}
use benis_phone.OAuth.Platform.{
  Platform, sha256_hex, pkce_challenge, base64url, strip_padding, url_char, random_token, Fields,
  get, form_field, oauth_error, tokens_issued, revoked,
}
use benis_phone.OAuth.Tokens.{
  find_grant, find_client, find_token, join_token, lookup_token, insert_token, insert_pair,
  issue_pair, issue_tokens, find_code, consume_code, consume_token, code_form_ok, code_row_ok,
  redeem_code, exchange_authorization_code, refresh_row_ok, redeem_refresh, exchange_refresh_token,
  revoke_grants, revoke_tokens,
}
use benis_phone.OAuth.Tokens.Sound.{IsEntitled, exchange_authorization_code-IsEntitled}
use benis_phone.OAuth.Bearer.{
  Actor, bearer_token, find_access, lookup_access, access_row_ok, authenticate_oauth_bearer,
  revoke_agent,
}
use benis_phone.OAuth.Bearer.Sound.{IsAuthentic, authenticate_oauth_bearer-IsAuthentic}
use benis_phone.OAuth.Service.{exchanges, calls, run}
use benis_phone.OAuth.Service.Codes.{exchange_authorization_code_once}
use benis_phone.OAuth.Service.Rotation.{HasFields, exchange_refresh_token_once}
use benis_phone.OAuth.Service.Revocation.{revoke_agent_for_good}

-- A platform whose digest is the text itself.
abbrev platform : Platform
platform = record { sha256 = λ t. t; btoa = λ bytes. bytes; parse_url = λ t. none }

abbrev client : Client
client = record {
  client_id = codes "client";
  client_name = codes "Agent";
  redirect_uris = codes "https://agent.example/cb" ∷ [];
  created_at = 0;
}

abbrev grant_of : String → Grant
grant_of id = record {
  grant_id = codes id;
  client_id = codes "client";
  access_identity = codes "anna";
  scope = codes "config:read";
  created_at = 0;
  last_used_at = none;
  revoked_at = none;
}

abbrev verifier : Text
verifier = codes "0123456789012345678901234567890123456789012"

abbrev code : Code
code = record {
  code_hash = sha256_hex platform (codes "code");
  grant_id = codes "g1";
  client_id = codes "client";
  redirect_uri = codes "https://agent.example/cb";
  code_challenge = verifier;
  resource = codes "https://phone.example/mcp";
  expires_at = 5000;
  used_at = none;
}

abbrev bearer : Text
bearer = codes "abcdefghijklmnopqrstuvwxyzabcdefghijkl"

abbrev token_of : Text → String → Kind → Token
token_of t id kind = record {
  token_hash = sha256_hex platform t;
  grant_id = codes id;
  kind = kind;
  created_at = 0;
  expires_at = 9000;
  revoked_at = none;
}

abbrev store : Store
store = record {
  clients = client ∷ [];
  requests = [];
  grants = grant_of "g1" ∷ grant_of "g2" ∷ [];
  codes = code ∷ [];
  tokens = token_of bearer "g1" access ∷ token_of (codes "old") "g1" refresh ∷ [];
}

abbrev code_form : Fields
code_form =
    (codes "code", codes "code")
    ∷ (codes "client_id", codes "client")
    ∷ (codes "redirect_uri", codes "https://agent.example/cb")
    ∷ (codes "code_verifier", verifier)
    ∷ []

abbrev refresh_form : Fields
refresh_form = (codes "refresh_token", codes "old") ∷ (codes "client_id", codes "client") ∷ []

abbrev first_token : Text
first_token = random_token platform "mcp_at" (1 ∷ [])

abbrev second_token : Text
second_token = random_token platform "mcp_rt" (2 ∷ [])

exchanges_code :
    (exchange_authorization_code platform code_form (1 ∷ []) (2 ∷ []) 1000 store).0
    ≡ tokens_issued first_token second_token (codes "config:read")
unfolding exchange_authorization_code code_form_ok code_row_ok redeem_code consume_code issue_tokens
    issue_pair insert_pair insert_token find_token find_grant find_code form_field get first? count
    codes ◌=ₜ◌ matches sha256_hex hex hex_byte hex_digit pkce_challenge base64url strip_padding
    url_char random_token
exchanges_code = refl

code_form-ok : code_form_ok platform code_form ≡ true
unfolding code_form_ok form_field get codes ◌=ₜ◌ matches
code_form-ok = refl

exchange_authorization_code_once_example :
    let t =
      run platform
        (calls (some (codes "Bearer " ++ bearer)) 1500
          ∷ exchanges refresh_form (3 ∷ []) (4 ∷ []) 1600
          ∷ [])
        (exchange_authorization_code platform code_form (1 ∷ []) (2 ∷ []) 1000 store).1 in
    exchange_authorization_code platform code_form (5 ∷ []) (6 ∷ []) 2000 t
    ≡ (oauth_error "invalid_grant" 400, t)
exchange_authorization_code_once_example =
    exchange_authorization_code_once platform code_form (1 ∷ []) (2 ∷ []) 1000 store first_token
      second_token (codes "config:read")
      (calls (some (codes "Bearer " ++ bearer)) 1500
        ∷ exchanges refresh_form (3 ∷ []) (4 ∷ []) 1600
        ∷ [])
      code_form (5 ∷ []) (6 ∷ []) 2000 exchanges_code refl code_form-ok

refreshes :
    (exchange_refresh_token platform refresh_form (1 ∷ []) (2 ∷ []) 1000 store).0
    ≡ tokens_issued first_token second_token (codes "config:read")
unfolding exchange_refresh_token lookup_token join_token find_client refresh_row_ok redeem_refresh
    consume_token issue_tokens issue_pair insert_pair insert_token find_token find_grant form_field
    get first? update count codes ◌=ₜ◌ sha256_hex hex hex_byte hex_digit base64url strip_padding
    url_char random_token
refreshes = refl

refresh_form-ok : HasFields refresh_form
unfolding form_field get codes ◌=ₜ◌
refresh_form-ok = refl

exchange_refresh_token_once_example :
    let t =
      run platform
        (exchanges code_form (3 ∷ []) (4 ∷ []) 1600 ∷ [])
        (exchange_refresh_token platform refresh_form (1 ∷ []) (2 ∷ []) 1000 store).1 in
    exchange_refresh_token platform refresh_form (5 ∷ []) (6 ∷ []) 2000 t
    ≡ (oauth_error "invalid_grant" 400, t)
exchange_refresh_token_once_example =
    exchange_refresh_token_once platform refresh_form (1 ∷ []) (2 ∷ []) 1000 store first_token
      second_token (codes "config:read") (exchanges code_form (3 ∷ []) (4 ∷ []) 1600 ∷ [])
      refresh_form (5 ∷ []) (6 ∷ []) 2000 refreshes refl refresh_form-ok

abbrev actor : Actor
actor = record {
  grant_id = codes "g1";
  client_id = codes "client";
  client_name = codes "Agent";
  access_identity = codes "anna";
  scopes = codes "config:read" ∷ [];
  expires_at = 9000;
}

authenticates :
    (authenticate_oauth_bearer platform (some (codes "Bearer " ++ bearer)) 1000 store).0
    ≡ some actor
unfolding authenticate_oauth_bearer bearer_token lookup_access find_access join_token find_client
    access_row_ok find_grant first? codes ◌=ₜ◌ matches sha256_hex hex hex_byte hex_digit
    strip_prefix words words_from
authenticates = refl

authenticate_oauth_bearer-IsAuthentic_example :
    IsAuthentic platform (some (codes "Bearer " ++ bearer)) 1000 store actor
authenticate_oauth_bearer-IsAuthentic_example =
    authenticate_oauth_bearer-IsAuthentic platform (some (codes "Bearer " ++ bearer)) 1000 store
      actor authenticates

revokes_g2 : (revoke_agent (codes "g2") 1000 store).0 ≡ revoked 1000
unfolding revoke_agent count codes ◌=ₜ◌
revokes_g2 = refl

authenticates_later :
    (authenticate_oauth_bearer platform
      (some (codes "Bearer " ++ bearer))
      2000
      (run platform [] (revoke_agent (codes "g2") 1000 store).1)).0
    ≡ some actor
unfolding run revoke_agent revoke_grants revoke_tokens update count authenticate_oauth_bearer
    bearer_token lookup_access find_access join_token find_client access_row_ok find_grant first?
    codes ◌=ₜ◌ matches sha256_hex hex hex_byte hex_digit strip_prefix words words_from
authenticates_later = refl

revoke_agent_for_good_example : actor.grant_id ≢ codes "g2"
revoke_agent_for_good_example =
    revoke_agent_for_good platform (codes "g2") 1000 store [] (some (codes "Bearer " ++ bearer))
      2000 actor revokes_g2 authenticates_later

exchange_authorization_code-IsEntitled_example :
    IsEntitled platform code_form 1000 store (codes "config:read")
exchange_authorization_code-IsEntitled_example =
    exchange_authorization_code-IsEntitled platform code_form (1 ∷ []) (2 ∷ []) 1000 store
      first_token second_token (codes "config:read") exchanges_code
