-- ===== src/OAuth/Authorize.antt =====
-- `authorizationPage` and `decideAuthorization` of ui/worker/lib/oauth.ts.
use benis_phone.Common.{
  ℕ, ◌+◌, Bool, true, false, not, ◌&&◌, Option, none, some, List, [], ◌∷◌, ◌++◌, leb, is_some,
  if◌then◌else◌,
}
use benis_phone.Common.Table.{first?, update}
use benis_phone.Common.Text.{Text, codes, ◌=ₜ◌, has_text, matches, is_word_dash}
use benis_phone.OAuth.Store.{
  Status, pending, approved, denied, Client, AuthorizationRequest, Grant, Code, Store,
}
use benis_phone.OAuth.Platform.{
  Platform, sha256_hex, random_token, Fields, get, or_empty, form_field, cookie_value, Response,
  bad_request, failed, page, redirect,
}
use benis_phone.OAuth.Clients.{is_empty, normalize_scope}

abbrev pub authorize_ttl_ms : ℕ
authorize_ttl_ms = 600000

abbrev pub code_ttl_ms : ℕ
code_ttl_ms = 300000

abbrev pub is_pending : Status → Bool
is_pending pending = true
is_pending _ = false

abbrev is_text : Option Text → Text → Bool
is_text none t = false
is_text (some s) t = s =ₜ t

-- What the query of the authorization page must hold.
unfoldable pub query_ok : Fields → Text → Bool
unfolding codes get form_field matches
query_ok query origin =
    is_text (get (codes "response_type") query) (codes "code")
    && not (is_empty (form_field "client_id" query))
    && not (is_empty (form_field "redirect_uri" query))
    && matches is_word_dash 43 128 (form_field "code_challenge" query)
    && is_text (get (codes "code_challenge_method") query) (codes "S256")

-- `url.searchParams.get("resource") ?? …`
abbrev or_else : Option Text → Text → Text
or_else none d = d
or_else (some s) d = s

unfoldable pub resource_of : Text → Text
unfolding codes
resource_of origin = origin ++ codes "/mcp"

unfoldable pub resource_ok : Fields → Text → Bool
unfolding codes get resource_of
resource_ok query origin =
    or_else (get (codes "resource") query) (resource_of origin) =ₜ resource_of origin

-- The client of that id, if it has registered the address.
unfoldable pub registered_client : Text → Text → List Client → Option Client
registered_client id uri clients = elim (first? (λ (c : Client). c.client_id =ₜ id) clients) [
  | none ↦ none
  | some client ↦ if has_text client.redirect_uris uri then some client else none
]

-- The primary key of `oauth_authorization_requests`.
unfoldable pub insert_request :
    AuthorizationRequest → List AuthorizationRequest → Option (List AuthorizationRequest)
insert_request r rs =
    if is_some (first? (λ (q : AuthorizationRequest). q.request_id =ₜ r.request_id) rs)
    then none
    else some (r ∷ rs)

module _ (p : Platform) where
  abbrev pub new_request : Fields → Text → Text → Text → Text → ℕ → AuthorizationRequest
  new_request query origin scope request_id csrf now = record {
    request_id = request_id;
    client_id = form_field "client_id" query;
    redirect_uri = form_field "redirect_uri" query;
    state = get (codes "state") query;
    code_challenge = form_field "code_challenge" query;
    resource = resource_of origin;
    scope = scope;
    csrf_hash = sha256_hex p csrf;
    created_at = now;
    expires_at = now + authorize_ttl_ms;
    decided_at = none;
    status = pending;
  }

  unfoldable pub open_request : AuthorizationRequest → Client → Text → Store → Response × Store
  open_request r client csrf s = elim (insert_request r s.requests) [
    | none ↦ (failed, s)
    | some rs ↦ (
      page client.client_name r.redirect_uri r.request_id csrf r.scope,
      record s { requests = rs },
    )
  ]

  -- `request_id` is the random UUID and `bytes` the random bytes of the CSRF token.
  unfoldable pub authorization_page : Fields → Text → Text → List ℕ → ℕ → Store → Response × Store
  authorization_page query origin request_id bytes now s =
      elim (normalize_scope (get (codes "scope") query)) [
        | none ↦ (bad_request "invalid OAuth authorization request", s)
        | some scope ↦
            if query_ok query origin && resource_ok query origin
            then elim (registered_client (form_field "client_id" query)
                (form_field "redirect_uri" query) s.clients) [
                  | none ↦ (bad_request "unknown client or redirect URI", s)
                  | some client ↦
                      open_request
                        (new_request query origin scope request_id (random_token p "csrf" bytes)
                          now)
                        client (random_token p "csrf" bytes) s
                ]
            else (bad_request "invalid OAuth authorization request", s)
      ]

  -- The guard of `decideAuthorization` on the row, the form's token and the cookie.
  unfoldable pub decision_ok : AuthorizationRequest → Text → Text → ℕ → Bool
  decision_ok row csrf cookie now =
      is_pending row.status
      && not (leb row.expires_at now)
      && not (is_empty csrf)
      && not (is_empty cookie)
      && (cookie =ₜ csrf)
      && (sha256_hex p csrf =ₜ row.csrf_hash)

-- `redirect.searchParams.set("state", row.state)`, for a state that is not empty.
abbrev pub with_state : Option Text → Fields → Fields
with_state none fields = fields
with_state (some []) fields = fields
with_state (some (c ∷ s)) fields = fields ++ (codes "state", c ∷ s) ∷ []

-- `UPDATE oauth_authorization_requests SET status = ?, decided_at = ? WHERE … 'pending'`
unfoldable pub settle_request :
    Text → Status → ℕ → List AuthorizationRequest → List AuthorizationRequest
settle_request request_id status now =
    update (λ r. (r.request_id =ₜ request_id) && is_pending r.status)
      (λ r. record r { status = status; decided_at = some now })

-- The primary keys of `oauth_grants` and `oauth_codes`.
unfoldable pub insert_grant : Grant → List Grant → Option (List Grant)
insert_grant g gs =
    if is_some (first? (λ (h : Grant). h.grant_id =ₜ g.grant_id) gs) then none else some (g ∷ gs)

unfoldable pub insert_code : Code → List Code → Option (List Code)
insert_code c cs =
    if is_some (first? (λ (d : Code). d.code_hash =ₜ c.code_hash) cs) then none else some (c ∷ cs)

abbrev pub new_grant : AuthorizationRequest → Text → Text → ℕ → Grant
new_grant row grant_id identity now = record {
  grant_id = grant_id;
  client_id = row.client_id;
  access_identity = identity;
  scope = row.scope;
  created_at = now;
  last_used_at = none;
  revoked_at = none;
}

abbrev pub new_code : AuthorizationRequest → Text → Text → ℕ → Code
new_code row grant_id code_hash now = record {
  code_hash = code_hash;
  grant_id = grant_id;
  client_id = row.client_id;
  redirect_uri = row.redirect_uri;
  code_challenge = row.code_challenge;
  resource = row.resource;
  expires_at = now + code_ttl_ms;
  used_at = none;
}

-- The batch of an approval: all three statements, or none.
unfoldable pub approve_batch : AuthorizationRequest → Grant → Code → ℕ → Store → Option Store
approve_batch row grant code now s = elim (insert_grant grant s.grants) [
  | none ↦ none
  | some grants ↦ elim (insert_code code s.codes) [
    | none ↦ none
    | some cs ↦ some (record s {
      grants = grants;
      codes = cs;
      requests = settle_request row.request_id approved now s.requests;
    })
  ]
]

-- What the browser sends with a decision.
pub record DecisionForm : Type 0 where
  pub form : Fields
  pub cookie : Option Text
  -- `accessIdentity(req)`
  pub identity : Text

module _ (p : Platform) where
  -- The decision on a row that passed the guard; `grant_id` and `code` are the random values.
  unfoldable pub decide_request :
      AuthorizationRequest → DecisionForm → Text → Text → ℕ → Store → Response × Store
  decide_request row d grant_id code now s =
      if form_field "decision" d.form =ₜ codes "approve"
      then elim (approve_batch row (new_grant row grant_id d.identity now)
          (new_code row grant_id (sha256_hex p code) now) now s) [
            | none ↦ (failed, s)
            | some s' ↦
                (redirect row.redirect_uri (with_state row.state ((codes "code", code) ∷ [])), s')
          ]
      else (
        redirect row.redirect_uri
            (with_state row.state ((codes "error", codes "access_denied") ∷ [])),
        record s { requests = settle_request row.request_id denied now s.requests },
      )

  unfoldable pub decide_authorization : DecisionForm → Text → List ℕ → ℕ → Store → Response × Store
  decide_authorization d grant_id bytes now s =
      elim (first? (λ (r : AuthorizationRequest). r.request_id =ₜ form_field "request_id" d.form)
        s.requests) [
          | none ↦ (bad_request "authorization request expired or invalid", s)
          | some row ↦
              if decision_ok p row (form_field "csrf" d.form)
                (or_empty (cookie_value d.cookie (codes "benis_mcp_oauth_csrf"))) now
              then decide_request row d grant_id (random_token p "mcp_code" bytes) now s
              else (bad_request "authorization request expired or invalid", s)
        ]
