-- ===== src/OAuth/Bearer.antt =====
-- `authenticateOAuthBearer` and the revocation of `handleAgentsApi` of ui/worker/lib/oauth.ts.
pub mod Sound
use benis_phone.Common.{
  ℕ, Bool, true, false, not, ◌&&◌, ◌||◌, Option, none, some, List, [], ◌∷◌, leb, is_none,
  if◌then◌else◌, ◌==◌,
}
use benis_phone.Common.Table.{first?, update, count}
use benis_phone.Common.Text.{Text, codes, ◌=ₜ◌, matches, is_word_dash, strip_prefix, words}
use benis_phone.OAuth.Store.{Grant, Token, Store}
use benis_phone.OAuth.Platform.{Platform, sha256_hex, or_empty, Response, not_found, revoked}
use benis_phone.OAuth.Tokens.{is_access, TokenRow, join_token, revoke_both}

pub record Actor : Type 0 where
  pub grant_id : Text
  pub client_id : Text
  pub client_name : Text
  pub access_identity : Text
  pub scopes : List Text
  pub expires_at : ℕ

-- `/^Bearer ([A-Za-z0-9_-]{32,256})$/`
unfoldable pub bearer_token : Option Text → Option Text
bearer_token header = elim (strip_prefix (codes "Bearer ") (or_empty header)) [
  | none ↦ none
  | some token ↦ if matches is_word_dash 32 256 token then some token else none
]

-- The query of `lookupToken`, for access tokens only.
unfoldable pub find_access : Text → List Token → Option Token
find_access hash tokens = first? (λ (t : Token). (t.token_hash =ₜ hash) && is_access t.kind) tokens

unfoldable pub lookup_access : Text → Store → Option TokenRow
lookup_access hash s = elim (find_access hash s.tokens) [ none ↦ none | some t ↦ join_token t s ]

unfoldable pub access_row_ok : ℕ → TokenRow → Bool
access_row_ok now row =
    is_none row.token.revoked_at
    && is_none row.grant.revoked_at
    && not (leb row.token.expires_at now)

abbrev pub actor_of : TokenRow → Actor
actor_of row = record {
  grant_id = row.token.grant_id;
  client_id = row.grant.client_id;
  client_name = row.client.client_name;
  access_identity = row.grant.access_identity;
  scopes = words row.grant.scope;
  expires_at = row.token.expires_at;
}

unfoldable pub use_grant : Text → ℕ → List Grant → List Grant
use_grant id now = update (λ g. g.grant_id =ₜ id) (λ g. record g { last_used_at = some now })

unfoldable pub authenticate_oauth_bearer : Platform → Option Text → ℕ → Store → Option Actor × Store
authenticate_oauth_bearer p header now s = elim (bearer_token header) [
  | none ↦ (none, s)
  | some token ↦ elim (lookup_access (sha256_hex p token) s) [
    | none ↦ (none, s)
    | some row ↦
        if access_row_ok now row
        then (some (actor_of row), record s { grants = use_grant row.token.grant_id now s.grants })
        else (none, s)
  ]
]

-- `POST /api/agents/<id>/revoke`
unfoldable pub revoke_agent : Text → ℕ → Store → Response × Store
revoke_agent id now s =
    if count (λ (g : Grant). (g.grant_id =ₜ id) && is_none g.revoked_at) s.grants == 0
    then (not_found "active agent grant not found", s)
    else (revoked now, revoke_both id now s)
