-- ===== src/OAuth/Service/Rotation.antt =====
-- A refresh token is exchanged once.
use benis_phone.Common.{
  ℕ, ◌≡◌, refl, subst, true, false, ◌||◌, some, List, [], ◌∷◌, arith, Bool-cases, Option-cases, inl,
  inr, is_none, is_some,
}
use benis_phone.Common.Text.{Text, ◌=ₜ◌, =ₜ_iff}
use benis_phone.Common.Table.{first?}
use benis_phone.Common.Spent.{
  IsSpent, update-IsSpent, consume-IsSpent, cons-IsSpent, IsSpent-first?,
}
use benis_phone.OAuth.Store.{Grant, Code, Token, access, refresh, Store}
use benis_phone.OAuth.Platform.{
  Platform, Fields, form_field, sha256_hex, random_token, oauth_error, tokens_issued,
}
use benis_phone.OAuth.Clients.{is_empty}
use benis_phone.OAuth.Authorize.{DecisionForm, decide_authorization}
use benis_phone.OAuth.Tokens.{
  TokenRow, find_token, find_grant, insert_token, insert_pair, new_token, issue_pair, issue_tokens,
  consume_token, consume_code, redeem_code, exchange_authorization_code, refresh_row_ok,
  lookup_token, join_token, redeem_refresh, exchange_refresh_token, exchange_token, revoke_tokens,
  revoke_token, access_ttl_ms, refresh_ttl_ms,
}
use benis_phone.OAuth.Bearer.{revoke_agent}
use benis_phone.OAuth.Service.{
  Event, registers, opens, decides, exchanges, revokes, calls, revokes_agent, handle, run,
}
use benis_phone.OAuth.Service.Frames.{
  register_client-OnlyClients, authorization_page-OnlyRequests,
  authenticate_oauth_bearer-OnlyGrants, decide_request_cases, decide_authorization_cases,
}

-- The token of that hash is in the table and revoked.
abbrev pub IsDead : Text → List Token → Type 0
IsDead hash = IsSpent (λ t. t.token_hash =ₜ hash) (λ t. is_none t.revoked_at)

insert_token-keeps :
    (hash : Text) (t : Token) (ts : List Token) {ts' : List Token}
    → insert_token t ts ≡ some ts'
    → IsDead hash ts
    → IsDead hash ts'
unfolding insert_token find_token
insert_token-keeps hash t ts {ts'} e h =
    let fresh : is_some (first? (λ (d : Token). d.token_hash =ₜ t.token_hash) ts) ≡ false =
      ground arith in
    let same : t ∷ ts ≡ ts' = ground arith in
    subst (IsDead hash) same (elim (Bool-cases (t.token_hash =ₜ hash)) [
      | inr other ↦ cons-IsSpent _ _ t ts other h
      | inl here ↦
          let at_hash : t.token_hash ≡ hash = (=ₜ_iff _ _).0 here in
          absurd (
            cc (
              h.1,
              subst (λ u. is_some (first? (λ (d : Token). d.token_hash =ₜ u) ts) ≡ false) at_hash
                  fresh,
            ))
    ])

insert_pair-keeps :
    (hash : Text) (a r : Token) (ts : List Token) {ts' : List Token}
    → insert_pair a r ts ≡ some ts'
    → IsDead hash ts
    → IsDead hash ts'
unfolding insert_pair
insert_pair-keeps hash a r ts e h = elim (Option-cases (insert_token a ts)) [
  | inl n ↦ absurd (ground arith)
  | inr (us, f) ↦
      insert_token-keeps hash r us (rw (f, insert_pair) at e) (insert_token-keeps hash a ts f h)
]

issue_pair-keeps :
    (p : Platform) (hash : Text) (g : Grant) (b b' : List ℕ) (now : ℕ) (s : Store)
    → IsDead hash s.tokens
    → IsDead hash (issue_pair p g b b' now s).1.tokens
unfolding issue_pair
issue_pair-keeps p hash g b b' now s h =
    elim (Option-cases (
      insert_pair
        (new_token (sha256_hex p (random_token p "mcp_at" b)) g.grant_id access now access_ttl_ms)
        (new_token (sha256_hex p (random_token p "mcp_rt" b')) g.grant_id refresh now
          refresh_ttl_ms)
        s.tokens)) [
          | inl n ↦ rw (n, issue_pair) h
          | inr (ts, e) ↦ rw (e, issue_pair) (insert_pair-keeps hash _ _ s.tokens e h)
        ]

issue_tokens-keeps :
    (p : Platform) (hash id : Text) (b b' : List ℕ) (now : ℕ) (s : Store)
    → IsDead hash s.tokens
    → IsDead hash (issue_tokens p id b b' now s).1.tokens
unfolding issue_tokens
issue_tokens-keeps p hash id b b' now s h = elim (Option-cases (find_grant id s.grants)) [
  | inl n ↦ rw (n, issue_tokens) h
  | inr (g, e) ↦ elim (Bool-cases (is_none g.revoked_at)) [
    | inl t ↦ rw (e, t, issue_tokens) (issue_pair-keeps p hash g b b' now s h)
    | inr n ↦ rw (e, n, issue_tokens) h
  ]
]

consume_token-keeps :
    (hash other : Text) (now : ℕ) (s : Store)
    → IsDead hash s.tokens
    → IsDead hash (consume_token other now s).1.tokens
unfolding consume_token
consume_token-keeps hash other now s h =
    update-IsSpent _ _ _ _ s.tokens (λ c. refl) (λ c e. absurd (cc e)) h

pub consume_token-IsDead :
    (hash : Text) (now : ℕ) (s : Store)
    → (consume_token hash now s).0 ≡ true
    → IsDead hash (consume_token hash now s).1.tokens
unfolding consume_token
consume_token-IsDead hash now s h =
    consume-IsSpent _ _ _ s.tokens (λ c. refl) (λ c. refl) (ground arith)

redeem_refresh-keeps :
    (p : Platform) (hash : Text) (row : TokenRow) (other : Text) (b b' : List ℕ) (now : ℕ)
    (s : Store)
    → IsDead hash s.tokens
    → IsDead hash (redeem_refresh p row other b b' now s).1.tokens
unfolding redeem_refresh
redeem_refresh-keeps p hash row other b b' now s h =
    elim (Bool-cases (consume_token other now s).0) [
      | inr n ↦ rw n (consume_token-keeps hash other now s h)
      | inl t ↦
          rw t (issue_tokens-keeps p hash _ b b' now _ (consume_token-keeps hash other now s h))
    ]

redeem_code-tokens-keeps :
    (p : Platform) (hash : Text) (row : Code) (other : Text) (b b' : List ℕ) (now : ℕ) (s : Store)
    → IsDead hash s.tokens
    → IsDead hash (redeem_code p row other b b' now s).1.tokens
unfolding redeem_code
redeem_code-tokens-keeps p hash row other b b' now s h =
    elim (Bool-cases (consume_code other now s).0) [
      | inr n ↦ rw n (unfold consume_code in h)
      | inl t ↦ rw t (issue_tokens-keeps p hash row.grant_id b b' now _ (unfold consume_code in h))
    ]

exchange_token-keeps :
    (p : Platform) (hash : Text) (form : Fields) (b b' : List ℕ) (now : ℕ) (s : Store)
    → IsDead hash s.tokens
    → IsDead hash (exchange_token p form b b' now s).1.tokens
unfolding exchange_token exchange_authorization_code exchange_refresh_token
exchange_token-keeps p hash form b b' now s h =
    grind (arith, redeem_code-tokens-keeps, redeem_refresh-keeps)

revoke_tokens-keeps :
    (hash id : Text) (now : ℕ) (ts : List Token)
    → IsDead hash ts
    → IsDead hash (revoke_tokens id now ts)
unfolding revoke_tokens
revoke_tokens-keeps hash id now ts h =
    update-IsSpent _ _ _ _ ts (λ t. refl) (λ t e. absurd (cc e)) h

revoke_token-keeps :
    (p : Platform) (hash : Text) (form : Fields) (now : ℕ) (s : Store)
    → IsDead hash s.tokens
    → IsDead hash (revoke_token p form now s).1.tokens
unfolding revoke_token
revoke_token-keeps p hash form now s h = grind (arith, revoke_tokens-keeps)

revoke_agent-keeps :
    (hash id : Text) (now : ℕ) (s : Store)
    → IsDead hash s.tokens
    → IsDead hash (revoke_agent id now s).1.tokens
unfolding revoke_agent
revoke_agent-keeps hash id now s h = grind (arith, revoke_tokens-keeps)

decide_authorization-keeps :
    (p : Platform) (hash : Text) (d : DecisionForm) (grant_id : Text) (bytes : List ℕ) (now : ℕ)
    (s : Store)
    → IsDead hash s.tokens
    → IsDead hash (decide_authorization p d grant_id bytes now s).1.tokens
decide_authorization-keeps p hash d grant_id bytes now s h =
    elim (decide_authorization_cases p d grant_id bytes now s) [
      | inl e ↦ rw e h
      | inr (row, e, _) ↦
          rw e
            (elim (decide_request_cases p row d grant_id (random_token p "mcp_code" bytes) now s) [
              | inl same ↦ rw (same.3) h
              | inr added ↦ rw (added.1) h
            ])
    ]

lookup_token-token :
    (hash : Text) (s : Store) {row : TokenRow}
    → lookup_token hash s ≡ some row
    → first? (λ (t : Token). t.token_hash =ₜ hash) s.tokens ≡ some row.token
unfolding lookup_token join_token find_token
lookup_token-token hash s {row} e =
    elim (Option-cases (first? (λ (t : Token). t.token_hash =ₜ hash) s.tokens)) [
      | inl n ↦ absurd (ground arith)
      | inr (t, f) ↦ ground arith
    ]

handle-IsDead :
    (p : Platform) (hash : Text) (e : Event) (s : Store)
    → IsDead hash s.tokens
    → IsDead hash (handle p e s).tokens
unfolding handle
handle-IsDead p hash (registers body bytes now) s h =
    rw ((register_client-OnlyClients p body bytes now s).3) h
handle-IsDead p hash (opens q o i b now) s h =
    rw ((authorization_page-OnlyRequests p q o i b now s).3) h
handle-IsDead p hash (decides d g b now) s h = decide_authorization-keeps p hash d g b now s h
handle-IsDead p hash (exchanges f b b' now) s h = exchange_token-keeps p hash f b b' now s h
handle-IsDead p hash (revokes f now) s h = revoke_token-keeps p hash f now s h
handle-IsDead p hash (calls a now) s h = rw ((authenticate_oauth_bearer-OnlyGrants p a now s).1) h
handle-IsDead p hash (revokes_agent i now) s h = revoke_agent-keeps hash i now s h

run-IsDead :
    (p : Platform) (hash : Text) (es : List Event) (s : Store)
    → IsDead hash s.tokens
    → IsDead hash (run p es s).tokens
unfolding run
run-IsDead p hash [] s h = h
run-IsDead p hash (e ∷ es) s h = run-IsDead p hash es (handle p e s) (handle-IsDead p hash e s h)

-- The guard on the fields of a refresh.
abbrev pub HasFields : Fields → Type 0
HasFields form =
    (is_empty (form_field "refresh_token" form) || is_empty (form_field "client_id" form)) ≡ false

IsDead-refuses :
    (p : Platform) (form : Fields) (b b' : List ℕ) (now : ℕ) (s : Store)
    → HasFields form
    → IsDead (sha256_hex p (form_field "refresh_token" form)) s.tokens
    → exchange_refresh_token p form b b' now s ≡ (oauth_error "invalid_grant" 400, s)
unfolding exchange_refresh_token
IsDead-refuses p form b b' now s f h =
    elim (Option-cases (lookup_token (sha256_hex p (form_field "refresh_token" form)) s)) [
      | inl n ↦ rw (f, n, exchange_refresh_token)
      | inr (row, e) ↦
          let dead : is_none row.token.revoked_at ≡ false =
            IsSpent-first? _ _ s.tokens {x = row.token} h (lookup_token-token _ s e) in
          let refused : refresh_row_ok p form now row ≡ false =
            unfold refresh_row_ok in ground arith in
          rw (f, e, refused, exchange_refresh_token)
    ]

redeem_refresh-IsDead :
    (p : Platform) (row : TokenRow) (hash : Text) (b b' : List ℕ) (now : ℕ) (s : Store)
    {a r scope : Text}
    → (redeem_refresh p row hash b b' now s).0 ≡ tokens_issued a r scope
    → IsDead hash (redeem_refresh p row hash b b' now s).1.tokens
unfolding redeem_refresh
redeem_refresh-IsDead p row hash b b' now s e = elim (Bool-cases (consume_token hash now s).0) [
  | inr n ↦ absurd (ground arith)
  | inl t ↦ rw t (issue_tokens-keeps p hash _ b b' now _ (consume_token-IsDead hash now s t))
]

exchange_refresh_token-IsDead :
    (p : Platform) (form : Fields) (b b' : List ℕ) (now : ℕ) (s : Store) {a r scope : Text}
    → (exchange_refresh_token p form b b' now s).0 ≡ tokens_issued a r scope
    → IsDead
        (sha256_hex p (form_field "refresh_token" form))
        (exchange_refresh_token p form b b' now s).1.tokens
unfolding exchange_refresh_token
exchange_refresh_token-IsDead p form b b' now s {a} {r} {scope} e =
    elim (Option-cases (lookup_token (sha256_hex p (form_field "refresh_token" form)) s)) [
      | inl n ↦ absurd (ground arith)
      | inr (row, found) ↦
          let f : HasFields form = ground arith in
          let g : refresh_row_ok p form now row ≡ true = ground arith in
          rw (f, found, g, exchange_refresh_token)
            (redeem_refresh-IsDead p row _ b b' now s {a = a} {r = r} {scope = scope}
              (rw (f, found, g) at e))
    ]

-- After a refresh has issued new tokens, every later refresh with the old refresh token and some
-- client id is answered with `invalid_grant` and changes nothing, whatever requests come in between.
pub exchange_refresh_token_once :
    (p : Platform) (form : Fields) (b b' : List ℕ) (now : ℕ) (s : Store) (a r scope : Text)
    (es : List Event) (form' : Fields) (more more' : List ℕ) (later : ℕ)
    → (exchange_refresh_token p form b b' now s).0 ≡ tokens_issued a r scope
    → form_field "refresh_token" form' ≡ form_field "refresh_token" form
    → HasFields form'
    → let t = run p es (exchange_refresh_token p form b b' now s).1 in
      exchange_refresh_token p form' more more' later t ≡ (oauth_error "invalid_grant" 400, t)
exchange_refresh_token_once p form b b' now s a r scope es form' more more' later e same f =
    IsDead-refuses p form' more more' later _ f (
      rw same (
        run-IsDead p (sha256_hex p (form_field "refresh_token" form)) es _
          (exchange_refresh_token-IsDead p form b b' now s {a = a} {r = r} {scope = scope} e)))
