-- ===== src/OAuth/Tokens.antt =====
-- `exchangeToken` and what it calls, `revokeToken` and `lookupToken` of ui/worker/lib/oauth.ts. Each
-- exchange is composed of the statements that the database runs one by one.
pub mod Sound
use benis_phone.Common.{
  ℕ, ◌+◌, Bool, true, false, not, ◌&&◌, ◌||◌, Option, none, some, List, ◌∷◌, leb, is_some, is_none,
  if◌then◌else◌, ◌==◌,
}
use benis_phone.Common.Table.{first?, update, count}
use benis_phone.Common.Text.{Text, codes, ◌=ₜ◌, matches, is_digit, is_upper, is_lower}
use benis_phone.OAuth.Store.{Kind, access, refresh, Client, Grant, Code, Token, Store}
use benis_phone.OAuth.Platform.{
  Platform, sha256_hex, pkce_challenge, random_token, Fields, form_field, Response, oauth_error,
  failed, tokens_issued, done,
}
use benis_phone.OAuth.Clients.{is_empty}

abbrev pub access_ttl_ms : ℕ
access_ttl_ms = 3600000

abbrev pub refresh_ttl_ms : ℕ
refresh_ttl_ms = 2592000000

-- `[A-Za-z0-9._~-]`
abbrev pub is_verifier_char : ℕ → Bool
is_verifier_char c =
    is_digit c || is_upper c || is_lower c || c == b'.' || c == b'_' || c == b'~' || c == b'-'

abbrev pub is_access : Kind → Bool
is_access access = true
is_access refresh = false

-- A row of the query that joins a token with its grant and its client.
pub record TokenRow : Type 0 where
  pub token : Token
  pub grant : Grant
  pub client : Client

unfoldable pub find_grant : Text → List Grant → Option Grant
find_grant id grants = first? (λ (g : Grant). g.grant_id =ₜ id) grants

unfoldable pub find_client : Text → List Client → Option Client
find_client id clients = first? (λ (c : Client). c.client_id =ₜ id) clients

unfoldable pub join_token : Token → Store → Option TokenRow
join_token t s = elim (find_grant t.grant_id s.grants) [
  | none ↦ none
  | some g ↦ elim (find_client g.client_id s.clients) [
    | none ↦ none
    | some c ↦ some (record { token = t; grant = g; client = c })
  ]
]

unfoldable pub find_token : Text → List Token → Option Token
find_token hash tokens = first? (λ (t : Token). t.token_hash =ₜ hash) tokens

unfoldable pub lookup_token : Text → Store → Option TokenRow
lookup_token hash s = elim (find_token hash s.tokens) [ none ↦ none | some t ↦ join_token t s ]

-- The primary key of `oauth_tokens`.
unfoldable pub insert_token : Token → List Token → Option (List Token)
insert_token t ts = if is_some (find_token t.token_hash ts) then none else some (t ∷ ts)

abbrev pub new_token : Text → Text → Kind → ℕ → ℕ → Token
new_token hash grant_id kind now ttl = record {
  token_hash = hash;
  grant_id = grant_id;
  kind = kind;
  created_at = now;
  expires_at = now + ttl;
  revoked_at = none;
}

-- The batch of the two insertions.
unfoldable pub insert_pair : Token → Token → List Token → Option (List Token)
insert_pair a r ts = elim (insert_token a ts) [ none ↦ none | some us ↦ insert_token r us ]

module _ (p : Platform) where
  -- The tokens of a grant that is there and not revoked, from the random bytes of each.
  unfoldable pub issue_pair : Grant → List ℕ → List ℕ → ℕ → Store → Response × Store
  issue_pair g bytes bytes' now s =
      elim (insert_pair
        (new_token (sha256_hex p (random_token p "mcp_at" bytes)) g.grant_id access now
          access_ttl_ms)
        (new_token (sha256_hex p (random_token p "mcp_rt" bytes')) g.grant_id refresh now
          refresh_ttl_ms)
        s.tokens) [
          | none ↦ (failed, s)
          | some ts ↦ (
            tokens_issued (random_token p "mcp_at" bytes) (random_token p "mcp_rt" bytes') g.scope,
            record s { tokens = ts },
          )
        ]

  unfoldable pub issue_tokens : Text → List ℕ → List ℕ → ℕ → Store → Response × Store
  issue_tokens grant_id bytes bytes' now s = elim (find_grant grant_id s.grants) [
    | none ↦ (oauth_error "invalid_grant" 400, s)
    | some g ↦
        if is_none g.revoked_at
        then issue_pair g bytes bytes' now s
        else (oauth_error "invalid_grant" 400, s)
  ]

unfoldable pub find_code : Text → List Code → Option Code
find_code hash cs = first? (λ (c : Code). c.code_hash =ₜ hash) cs

abbrev pub unused_code : Text → Code → Bool
unused_code hash c = (c.code_hash =ₜ hash) && is_none c.used_at

-- `UPDATE oauth_codes SET used_at = ? WHERE code_hash = ? AND used_at IS NULL`, and whether it
-- changed one row.
unfoldable pub consume_code : Text → ℕ → Store → Bool × Store
consume_code hash now s = (
  count (unused_code hash) s.codes == 1,
  record s { codes = update (unused_code hash) (λ c. record c { used_at = some now }) s.codes },
)

abbrev pub live_token : Text → Token → Bool
live_token hash t = (t.token_hash =ₜ hash) && is_none t.revoked_at

-- `UPDATE oauth_tokens SET revoked_at = ? WHERE token_hash = ? AND revoked_at IS NULL`
unfoldable pub consume_token : Text → ℕ → Store → Bool × Store
consume_token hash now s = (
  count (live_token hash) s.tokens == 1,
  record s { tokens = update (live_token hash) (λ t. record t { revoked_at = some now }) s.tokens },
)

module _ (p : Platform) where
  unfoldable pub code_form_ok : Fields → Bool
  code_form_ok form =
      not (is_empty (form_field "code" form))
      && not (is_empty (form_field "client_id" form))
      && not (is_empty (form_field "redirect_uri" form))
      && matches is_verifier_char 43 128 (form_field "code_verifier" form)

  -- The guard on the code's row.
  unfoldable pub code_row_ok : Fields → ℕ → Code → Bool
  code_row_ok form now row =
      is_none row.used_at
      && not (leb row.expires_at now)
      && (row.client_id =ₜ form_field "client_id" form)
      && (row.redirect_uri =ₜ form_field "redirect_uri" form)
      && (pkce_challenge p (form_field "code_verifier" form) =ₜ row.code_challenge)

  -- The statements after the guard: consume, then issue.
  unfoldable pub redeem_code : Code → Text → List ℕ → List ℕ → ℕ → Store → Response × Store
  redeem_code row hash bytes bytes' now s =
      let (consumed, s') = consume_code hash now s in
      if consumed
      then issue_tokens p row.grant_id bytes bytes' now s'
      else (oauth_error "invalid_grant" 400, s')

  unfoldable pub exchange_authorization_code :
      Fields → List ℕ → List ℕ → ℕ → Store → Response × Store
  exchange_authorization_code form bytes bytes' now s =
      if code_form_ok form
      then elim (find_code (sha256_hex p (form_field "code" form)) s.codes) [
        | none ↦ (oauth_error "invalid_grant" 400, s)
        | some row ↦
            if code_row_ok form now row
            then redeem_code row (sha256_hex p (form_field "code" form)) bytes bytes' now s
            else (oauth_error "invalid_grant" 400, s)
      ]
      else (oauth_error "invalid_request" 400, s)

  -- The guard on the refresh token's row.
  unfoldable pub refresh_row_ok : Fields → ℕ → TokenRow → Bool
  refresh_row_ok form now row =
      not (is_access row.token.kind)
      && (row.grant.client_id =ₜ form_field "client_id" form)
      && not (leb row.token.expires_at now)
      && is_none row.token.revoked_at
      && is_none row.grant.revoked_at

  unfoldable pub redeem_refresh : TokenRow → Text → List ℕ → List ℕ → ℕ → Store → Response × Store
  redeem_refresh row hash bytes bytes' now s =
      let (consumed, s') = consume_token hash now s in
      if consumed
      then issue_tokens p row.token.grant_id bytes bytes' now s'
      else (oauth_error "invalid_grant" 400, s')

  unfoldable pub exchange_refresh_token : Fields → List ℕ → List ℕ → ℕ → Store → Response × Store
  exchange_refresh_token form bytes bytes' now s =
      if is_empty (form_field "refresh_token" form) || is_empty (form_field "client_id" form)
      then (oauth_error "invalid_request" 400, s)
      else elim (lookup_token (sha256_hex p (form_field "refresh_token" form)) s) [
        | none ↦ (oauth_error "invalid_grant" 400, s)
        | some row ↦
            if refresh_row_ok form now row
            then redeem_refresh row (sha256_hex p (form_field "refresh_token" form)) bytes bytes'
                now s
            else (oauth_error "invalid_grant" 400, s)
      ]

  unfoldable pub exchange_token : Fields → List ℕ → List ℕ → ℕ → Store → Response × Store
  exchange_token form bytes bytes' now s =
      if form_field "grant_type" form =ₜ codes "authorization_code"
      then exchange_authorization_code form bytes bytes' now s
      else if form_field "grant_type" form =ₜ codes "refresh_token"
      then exchange_refresh_token form bytes bytes' now s
      else (oauth_error "unsupported_grant_type" 400, s)

-- `UPDATE oauth_grants` and `UPDATE oauth_tokens` with `revoked_at IS NULL`.
unfoldable pub revoke_grants : Text → ℕ → List Grant → List Grant
revoke_grants id now =
    update (λ g. (g.grant_id =ₜ id) && is_none g.revoked_at)
      (λ g. record g { revoked_at = some now })

unfoldable pub revoke_tokens : Text → ℕ → List Token → List Token
revoke_tokens id now =
    update (λ t. (t.grant_id =ₜ id) && is_none t.revoked_at)
      (λ t. record t { revoked_at = some now })

abbrev pub revoke_both : Text → ℕ → Store → Store
revoke_both id now s = record s {
  grants = revoke_grants id now s.grants;
  tokens = revoke_tokens id now s.tokens;
}

module _ (p : Platform) where
  unfoldable pub revoke_token : Fields → ℕ → Store → Response × Store
  revoke_token form now s =
      if is_empty (form_field "token" form)
      then (done, s)
      else elim (lookup_token (sha256_hex p (form_field "token" form)) s) [
        | none ↦ (done, s)
        | some row ↦ (done, revoke_both row.token.grant_id now s)
      ]
