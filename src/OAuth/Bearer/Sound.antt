-- ===== src/OAuth/Bearer/Sound.antt =====
-- When `authenticateOAuthBearer` accepts a token.
use benis_phone.Common.{
  ℕ, ◌<◌, ◌≡◌, subst, true, ◌&&◌, Option, none, some, arith, Option-cases, inl, inr, is_none-true,
  and-true, is_none-true, and-true,
}
use benis_phone.Common.Text.{Text, ◌=ₜ◌, =ₜ_iff}
use benis_phone.Common.Table.{first?, first?-test}
use benis_phone.OAuth.Store.{Token, Store}
use benis_phone.OAuth.Platform.{Platform, sha256_hex}
use benis_phone.OAuth.Tokens.{TokenRow, find_grant, find_client, join_token, is_access}
use benis_phone.OAuth.Bearer.{
  Actor, bearer_token, find_access, lookup_access, access_row_ok, actor_of,
  authenticate_oauth_bearer,
}

-- What is known of a bearer that is accepted at `now`, and of the actor.
pub record IsAuthentic (p : Platform) (header : Option Text) (now : ℕ) (s : Store) (a : Actor)
    : Type 0 where
  pub bearer : Text
  pub sent : bearer_token header ≡ some bearer
  pub row : TokenRow
  pub stored :
      first? (λ (t : Token). (t.token_hash =ₜ sha256_hex p bearer) && is_access t.kind) s.tokens
      ≡ some row.token
  pub hashed : row.token.token_hash ≡ sha256_hex p bearer
  pub is_access_token : is_access row.token.kind ≡ true
  pub granted : find_grant row.token.grant_id s.grants ≡ some row.grant
  pub known : find_client row.grant.client_id s.clients ≡ some row.client
  pub live_token : row.token.revoked_at ≡ none
  pub live_grant : row.grant.revoked_at ≡ none
  pub in_time : now < row.token.expires_at
  pub answer : a ≡ actor_of row

access_row_ok-parts :
    (now : ℕ) (row : TokenRow)
    → access_row_ok now row ≡ true
    → (row.token.revoked_at ≡ none) × (row.grant.revoked_at ≡ none) × (now < row.token.expires_at)
unfolding access_row_ok
access_row_ok-parts now row h =
    (is_none-true _ (ground arith), is_none-true _ (ground arith), ground arith)

lookup_access-parts :
    (hash : Text) (s : Store) (row : TokenRow)
    → lookup_access hash s ≡ some row
    → (first? (λ (t : Token). (t.token_hash =ₜ hash) && is_access t.kind) s.tokens ≡ some row.token)
      × (row.token.token_hash ≡ hash)
      × (is_access row.token.kind ≡ true)
      × (find_grant row.token.grant_id s.grants ≡ some row.grant)
      × (find_client row.grant.client_id s.clients ≡ some row.client)
unfolding lookup_access join_token find_access
lookup_access-parts hash s row e =
    elim (Option-cases
      (first? (λ (t : Token). (t.token_hash =ₜ hash) && is_access t.kind) s.tokens)) [
        | inl n ↦ absurd (ground arith)
        | inr (t, f) ↦ elim (Option-cases (find_grant t.grant_id s.grants)) [
          | inl n ↦ absurd (ground arith)
          | inr (g, h) ↦ elim (Option-cases (find_client g.client_id s.clients)) [
            | inl n ↦ absurd (ground arith)
            | inr (c, k) ↦
                let whole : record { token = t; grant = g; client = c } ≡ row = ground arith in
                let (hashed, kind) = and-true _ _ (first?-test _ s.tokens f) in
                subst
                  (λ (r : TokenRow).
                    (first? (λ (t : Token). (t.token_hash =ₜ hash) && is_access t.kind) s.tokens
                      ≡ some r.token)
                    × (r.token.token_hash ≡ hash)
                    × (is_access r.token.kind ≡ true)
                    × (find_grant r.token.grant_id s.grants ≡ some r.grant)
                    × (find_client r.grant.client_id s.clients ≡ some r.client))
                  whole (f, (=ₜ_iff _ _).0 hashed, kind, h, k)
          ]
        ]
      ]

-- For an accepted bearer token the table of tokens has a row with its hash that is an access token,
-- not revoked and not expired; the row's grant and that grant's client are in the tables, the grant
-- is not revoked, and the actor is read from these rows.
pub authenticate_oauth_bearer-IsAuthentic :
    (p : Platform) (header : Option Text) (now : ℕ) (s : Store) (a : Actor)
    → (authenticate_oauth_bearer p header now s).0 ≡ some a
    → IsAuthentic p header now s a
unfolding authenticate_oauth_bearer
authenticate_oauth_bearer-IsAuthentic p header now s a e =
    elim (Option-cases (bearer_token header)) [
      | inl n ↦ absurd (ground arith)
      | inr (bearer, sent) ↦ elim (Option-cases (lookup_access (sha256_hex p bearer) s)) [
        | inl n ↦ absurd (ground arith)
        | inr (row, found) ↦
            let (stored, hashed, kind, granted, known) =
              lookup_access-parts (sha256_hex p bearer) s row found in
            let good : access_row_ok now row ≡ true = ground arith in
            let (unrevoked, alive, in_time) = access_row_ok-parts now row good in
            record {
              bearer = bearer;
              sent = sent;
              row = row;
              stored = stored;
              hashed = hashed;
              is_access_token = kind;
              granted = granted;
              known = known;
              live_token = unrevoked;
              live_grant = alive;
              in_time = in_time;
              answer = ground arith;
            }
      ]
    ]
