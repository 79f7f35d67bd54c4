-- ===== src/OAuth/Tokens/Sound.antt =====
-- What an exchange of an authorization code proves that issues tokens (ui/worker/lib/oauth.ts).
use benis_phone.Common.{
  ℕ, ◌<◌, ◌≡◌, true, none, some, List, arith, is_none, Option-cases, Bool-cases, inl, inr, and-true,
  is_none-true,
}
use benis_phone.Common.Text.{Text, =ₜ_iff}
use benis_phone.OAuth.Store.{Grant, Code, Store}
use benis_phone.OAuth.Platform.{
  Platform, sha256_hex, pkce_challenge, Fields, form_field, tokens_issued,
}
use benis_phone.OAuth.Tokens.{
  find_grant, find_code, consume_code, code_form_ok, code_row_ok, redeem_code, issue_tokens,
  issue_pair, exchange_authorization_code,
}

-- The code and the grant behind an exchange, and what the form has in common with them.
pub record IsEntitled (p : Platform) (form : Fields) (now : ℕ) (s : Store) (scope : Text)
    : Type 0 where
  pub row : Code
  pub grant : Grant
  pub found : find_code (sha256_hex p (form_field "code" form)) s.codes ≡ some row
  pub unused : row.used_at ≡ none
  pub in_time : now < row.expires_at
  pub same_client : row.client_id ≡ form_field "client_id" form
  pub same_redirect : row.redirect_uri ≡ form_field "redirect_uri" form
  pub verified : pkce_challenge p (form_field "code_verifier" form) ≡ row.code_challenge
  pub granted : find_grant row.grant_id s.grants ≡ some grant
  pub live : grant.revoked_at ≡ none
  pub same_scope : scope ≡ grant.scope

code_row_ok-parts :
    (p : Platform) (form : Fields) (now : ℕ) (row : Code)
    → code_row_ok p form now row ≡ true
    → (row.used_at ≡ none)
      × (now < row.expires_at)
      × (row.client_id ≡ form_field "client_id" form)
      × (row.redirect_uri ≡ form_field "redirect_uri" form)
      × (pkce_challenge p (form_field "code_verifier" form) ≡ row.code_challenge)
unfolding code_row_ok
code_row_ok-parts p form now row h =
    let (h4, v) = and-true _ _ h in
    let (h3, r) = and-true _ _ h4 in
    let (h2, c) = and-true _ _ h3 in
    let (u, t) = and-true _ _ h2 in
    (is_none-true _ u, ground (arith, t), (=ₜ_iff _ _).0 c, (=ₜ_iff _ _).0 r, (=ₜ_iff _ _).0 v)

issue_tokens-granted :
    (p : Platform) (id : Text) (b b' : List ℕ) (now : ℕ) (s : Store) (a r scope : Text)
    → (issue_tokens p id b b' now s).0 ≡ tokens_issued a r scope
    → (g : Grant) × (find_grant id s.grants ≡ some g) × (g.revoked_at ≡ none) × (scope ≡ g.scope)
unfolding issue_tokens issue_pair
issue_tokens-granted p id b b' now s a r scope h = elim (Option-cases (find_grant id s.grants)) [
  | inl n ↦ absurd (ground arith)
  | inr (g, e) ↦ elim (Bool-cases (is_none g.revoked_at)) [
    | inr f ↦ absurd (ground arith)
    | inl t ↦ (g, e, is_none-true _ t, ground arith)
  ]
]

redeem_code-granted :
    (p : Platform) (row : Code) (hash : Text) (b b' : List ℕ) (now : ℕ) (s : Store)
    (a r scope : Text)
    → (redeem_code p row hash b b' now s).0 ≡ tokens_issued a r scope
    → (g : Grant) × (find_grant row.grant_id s.grants ≡ some g)
      × (g.revoked_at ≡ none)
      × (scope ≡ g.scope)
unfolding redeem_code consume_code
redeem_code-granted p row hash b b' now s a r scope h =
    elim (Bool-cases (consume_code hash now s).0) [
      | inr f ↦ absurd (ground arith)
      | inl t ↦
          issue_tokens-granted p row.grant_id b b' now (consume_code hash now s).1 a r scope
            (rw (t, redeem_code) at h)
    ]

-- An exchange of an authorization code issues tokens only for a code that is in the table, unused
-- and not expired, to the client and the redirect address that it was given for, on a verifier
-- whose challenge is the code's, under a grant that is there and not revoked, and for its scope.
pub exchange_authorization_code-IsEntitled :
    (p : Platform) (form : Fields) (b b' : List ℕ) (now : ℕ) (s : Store) (a r scope : Text)
    → (exchange_authorization_code p form b b' now s).0 ≡ tokens_issued a r scope
    → IsEntitled p form now s scope
unfolding exchange_authorization_code
exchange_authorization_code-IsEntitled p form b b' now s a r scope h =
    elim (Option-cases (find_code (sha256_hex p (form_field "code" form)) s.codes)) [
      | inl n ↦ absurd (ground arith)
      | inr (row, found) ↦
          let f : code_form_ok p form ≡ true = ground arith in
          let k : code_row_ok p form now row ≡ true = ground arith in
          let (unused, time, client, redirect, challenge) = code_row_ok-parts p form now row k in
          let (g, granted, live, same) =
            redeem_code-granted p row _ b b' now s a r scope
              (rw (f, found, k, exchange_authorization_code) at h) in
          record {
            row = row;
            grant = g;
            found = found;
            unused = unused;
            in_time = time;
            same_client = client;
            same_redirect = redirect;
            verified = challenge;
            granted = granted;
            live = live;
            same_scope = same;
          }
    ]
