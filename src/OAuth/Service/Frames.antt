-- ===== src/OAuth/Service/Frames.antt =====
-- Which tables a request leaves alone.
use benis_phone.Common.{
  ℕ, ◌≡◌, refl, true, Option, none, some, List, arith, Bool-cases, Option-cases, inl, inr, ◌⊎◌,
}
use benis_phone.Common.Text.{Text, codes, ◌=ₜ◌}
use benis_phone.Common.Table.{first?}
use benis_phone.OAuth.Store.{AuthorizationRequest, Store}
use benis_phone.OAuth.Platform.{
  Platform, Fields, form_field, or_empty, cookie_value, sha256_hex, random_token, bad_request,
}
use benis_phone.OAuth.Clients.{Body, invalid_json, null_json, object, register_client, add_client}
use benis_phone.OAuth.Authorize.{
  authorization_page, open_request, DecisionForm, decision_ok, insert_grant, insert_code, new_grant,
  new_code, approve_batch, decide_request, decide_authorization,
}
use benis_phone.OAuth.Tokens.{
  issue_tokens, issue_pair, consume_token, redeem_refresh, exchange_refresh_token, revoke_token,
}
use benis_phone.OAuth.Bearer.{authenticate_oauth_bearer, revoke_agent}

-- A store that differs from `s` at most in its clients.
abbrev pub OnlyClients : Store → Store → Type 0
OnlyClients s t =
    (t.requests ≡ s.requests) × (t.grants ≡ s.grants) × (t.codes ≡ s.codes) × (t.tokens ≡ s.tokens)

pub register_client-OnlyClients :
    (p : Platform) (body : Body) (bytes : List ℕ) (now : ℕ) (s : Store)
    → OnlyClients s (register_client p body bytes now s).1
unfolding register_client add_client
register_client-OnlyClients p invalid_json bytes now s = (refl, refl, refl, refl)
register_client-OnlyClients p null_json bytes now s = (refl, refl, refl, refl)
register_client-OnlyClients p (object none m n) bytes now s = (refl, refl, refl, refl)
register_client-OnlyClients p (object (some uris) m n) bytes now s =
    (ground arith, ground arith, ground arith, ground arith)

-- Only the requests.
abbrev pub OnlyRequests : Store → Store → Type 0
OnlyRequests s t =
    (t.clients ≡ s.clients) × (t.grants ≡ s.grants) × (t.codes ≡ s.codes) × (t.tokens ≡ s.tokens)

pub authorization_page-OnlyRequests :
    (p : Platform) (query : Fields) (origin id : Text) (bytes : List ℕ) (now : ℕ) (s : Store)
    → OnlyRequests s (authorization_page p query origin id bytes now s).1
unfolding authorization_page open_request
authorization_page-OnlyRequests p query origin id bytes now s =
    (ground arith, ground arith, ground arith, ground arith)

-- Only the grants and the tokens.
abbrev pub OnlyGrants : Store → Store → Type 0
OnlyGrants s t = (t.clients ≡ s.clients) × (t.requests ≡ s.requests) × (t.codes ≡ s.codes)

pub revoke_token-OnlyGrants :
    (p : Platform) (form : Fields) (now : ℕ) (s : Store)
    → OnlyGrants s (revoke_token p form now s).1
unfolding revoke_token
revoke_token-OnlyGrants p form now s = (ground arith, ground arith, ground arith)

pub authenticate_oauth_bearer-OnlyGrants :
    (p : Platform) (header : Option Text) (now : ℕ) (s : Store)
    → OnlyGrants s (authenticate_oauth_bearer p header now s).1
      × ((authenticate_oauth_bearer p header now s).1.tokens ≡ s.tokens)
unfolding authenticate_oauth_bearer
authenticate_oauth_bearer-OnlyGrants p header now s =
    ((ground arith, ground arith, ground arith), ground arith)

pub revoke_agent-OnlyGrants :
    (id : Text) (now : ℕ) (s : Store) → OnlyGrants s (revoke_agent id now s).1
unfolding revoke_agent
revoke_agent-OnlyGrants id now s = (ground arith, ground arith, ground arith)

-- Only the tokens.
abbrev pub OnlyTokens : Store → Store → Type 0
OnlyTokens s t =
    (t.clients ≡ s.clients)
    × (t.requests ≡ s.requests)
    × (t.codes ≡ s.codes)
    × (t.grants ≡ s.grants)

pub issue_tokens-OnlyTokens :
    (p : Platform) (grant_id : Text) (bytes bytes' : List ℕ) (now : ℕ) (s : Store)
    → OnlyTokens s (issue_tokens p grant_id bytes bytes' now s).1
unfolding issue_tokens issue_pair
issue_tokens-OnlyTokens p grant_id bytes bytes' now s =
    (ground arith, ground arith, ground arith, ground arith)

pub exchange_refresh_token-OnlyTokens :
    (p : Platform) (form : Fields) (bytes bytes' : List ℕ) (now : ℕ) (s : Store)
    → OnlyTokens s (exchange_refresh_token p form bytes bytes' now s).1
unfolding exchange_refresh_token redeem_refresh consume_token
exchange_refresh_token-OnlyTokens p form bytes bytes' now s = (
  grind (arith, issue_tokens-OnlyTokens),
  grind (arith, issue_tokens-OnlyTokens),
  grind (arith, issue_tokens-OnlyTokens),
  grind (arith, issue_tokens-OnlyTokens),
)

-- What a decision does: an approval adds one grant and one code, all else adds none; the clients
-- and the tokens stay.
abbrev pub Approves :
    Platform → AuthorizationRequest → DecisionForm → Text → Text → ℕ → Store → Store → Type 0
Approves p row d grant_id code now s t =
    (t.clients ≡ s.clients)
    × (t.tokens ≡ s.tokens)
    × (insert_grant (new_grant row grant_id d.identity now) s.grants ≡ some t.grants)
    × (insert_code (new_code row grant_id (sha256_hex p code) now) s.codes ≡ some t.codes)

approve_batch-Approves :
    (p : Platform) (row : AuthorizationRequest) (d : DecisionForm) (grant_id code : Text) (now : ℕ)
    (s t : Store)
    → approve_batch row
        (new_grant row grant_id d.identity now)
        (new_code row grant_id (sha256_hex p code) now)
        now
        s
      ≡ some t
    → Approves p row d grant_id code now s t
unfolding approve_batch
approve_batch-Approves p row d grant_id code now s t e =
    elim (Option-cases (insert_grant (new_grant row grant_id d.identity now) s.grants)) [
      | inl n ↦ absurd (ground arith)
      | inr (gs, g) ↦
          elim (Option-cases
            (insert_code (new_code row grant_id (sha256_hex p code) now) s.codes)) [
              | inl n ↦ absurd (ground arith)
              | inr (cs, c) ↦ (ground arith, ground arith, ground arith, ground arith)
            ]
    ]

pub decide_request_cases :
    (p : Platform) (row : AuthorizationRequest) (d : DecisionForm) (grant_id code : Text) (now : ℕ)
    (s : Store)
    → OnlyRequests s (decide_request p row d grant_id code now s).1
      ⊎ Approves p row d grant_id code now s (decide_request p row d grant_id code now s).1
unfolding decide_request
decide_request_cases p row d grant_id code now s =
    elim (Bool-cases (form_field "decision" d.form =ₜ codes "approve")) [
      | inr n ↦ rw n (inl (refl, refl, refl, refl))
      | inl t ↦
          elim (Option-cases (
            approve_batch row (new_grant row grant_id d.identity now)
              (new_code row grant_id (sha256_hex p code) now) now s)) [
                | inl n ↦ rw (t, n, decide_request) (inl (refl, refl, refl, refl))
                | inr (s', e) ↦
                    rw (t, e, decide_request)
                      (inr (approve_batch-Approves p row d grant_id code now s s' e))
              ]
    ]

-- The row that a decision finds, if it is acted on.
abbrev pub ActsOn : Platform → DecisionForm → ℕ → Store → AuthorizationRequest → Type 0
ActsOn p d now s row =
    (first? (λ (r : AuthorizationRequest). r.request_id =ₜ form_field "request_id" d.form)
        s.requests
      ≡ some row)
    × (decision_ok p row (form_field "csrf" d.form)
          (or_empty (cookie_value d.cookie (codes "benis_mcp_oauth_csrf"))) now
        ≡ true)

pub decide_authorization_cases :
    (p : Platform) (d : DecisionForm) (grant_id : Text) (bytes : List ℕ) (now : ℕ) (s : Store)
    → (decide_authorization p d grant_id bytes now s
        ≡ (bad_request "authorization request expired or invalid", s))
      ⊎ ((row : AuthorizationRequest) × (decide_authorization p d grant_id bytes now s
            ≡ decide_request p row d grant_id (random_token p "mcp_code" bytes) now s)
          × ActsOn p d now s row)
unfolding decide_authorization
decide_authorization_cases p d grant_id bytes now s =
    elim (Option-cases (
      first? (λ (r : AuthorizationRequest). r.request_id =ₜ form_field "request_id" d.form)
        s.requests)) [
          | inl n ↦ inl (rw (n, decide_authorization))
          | inr (row, e) ↦
              elim (Bool-cases (
                decision_ok p row (form_field "csrf" d.form)
                  (or_empty (cookie_value d.cookie (codes "benis_mcp_oauth_csrf"))) now)) [
                    | inr n ↦ inl (rw (e, n, decide_authorization))
                    | inl t ↦ inr (row, rw (e, t, decide_authorization), (e, t))
                  ]
        ]
