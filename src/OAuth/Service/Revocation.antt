-- ===== src/OAuth/Service/Revocation.antt =====
-- A revoked grant stays revoked, and none of its tokens authenticates.
use benis_phone.Common.{
  ℕ, ◌==◌, ◌<◌, ◌≡◌, ◌≢◌, refl, subst, ap, sym, ◌∙◌, Bool, true, false, ◌&&◌, Option, none, some,
  List, [], ◌∷◌, arith, Bool-cases, inl, inr, is_none, is_some,
}
use benis_phone.Common.Text.{Text, ◌=ₜ◌, =ₜ_iff}
use benis_phone.Common.Table.{first?, update, count}
use benis_phone.OAuth.Store.{Grant, Code, Store}
use benis_phone.OAuth.Platform.{Platform, Fields, random_token, revoked}
use benis_phone.OAuth.Authorize.{DecisionForm, insert_grant, decide_authorization}
use benis_phone.OAuth.Tokens.{
  find_grant, redeem_code, consume_code, exchange_authorization_code, exchange_token, revoke_grants,
  revoke_token,
}
use benis_phone.OAuth.Bearer.{Actor, use_grant, authenticate_oauth_bearer, revoke_agent}
use benis_phone.OAuth.Service.{
  Event, registers, opens, decides, exchanges, revokes, calls, revokes_agent, handle, run,
}
use benis_phone.OAuth.Service.Frames.{
  register_client-OnlyClients, authorization_page-OnlyRequests, issue_tokens-OnlyTokens,
  exchange_refresh_token-OnlyTokens, decide_request_cases, decide_authorization_cases,
}
use benis_phone.OAuth.Bearer.Sound.{authenticate_oauth_bearer-IsAuthentic}

abbrev pub is_revoked : Option Grant → Bool
is_revoked none = false
is_revoked (some g) = is_some g.revoked_at

-- The grant of that id is in the table, and is revoked.
abbrev pub IsRevoked : Text → List Grant → Type 0
IsRevoked id gs = is_revoked (find_grant id gs) ≡ true

update-IsRevoked :
    (p : Grant → Bool) (f : Grant → Grant) (id : Text) (gs : List Grant)
    → ((g : Grant) → (f g).grant_id ≡ g.grant_id)
    → ((g : Grant) → is_some g.revoked_at ≡ true → is_some (f g).revoked_at ≡ true)
    → IsRevoked id gs
    → IsRevoked id (update p f gs)
unfolding find_grant first? update
update-IsRevoked p f id [] same keep h = h
update-IsRevoked p f id (g ∷ gs) same keep h =
    ground (arith, update-IsRevoked p f id gs same keep, same g, keep g)

insert_grant-IsRevoked :
    (g : Grant) (id : Text) (gs : List Grant) {gs' : List Grant}
    → insert_grant g gs ≡ some gs'
    → IsRevoked id gs
    → IsRevoked id gs'
unfolding find_grant first? insert_grant
insert_grant-IsRevoked g id gs {gs'} e r =
    let fresh : is_some (first? (λ (h : Grant). h.grant_id =ₜ g.grant_id) gs) ≡ false =
      ground arith in
    let same : g ∷ gs ≡ gs' = ground arith in
    subst (IsRevoked id) same (elim (Bool-cases (g.grant_id =ₜ id)) [
      | inr other ↦ rw other r
      | inl here ↦
          let at_id : g.grant_id ≡ id = (=ₜ_iff _ _).0 here in
          let missing : is_some (first? (λ (h : Grant). h.grant_id =ₜ id) gs) ≡ false =
            rw at_id at fresh in
          absurd (ground (arith, missing))
    ])

redeem_code-grants :
    (p : Platform) (row : Code) (hash : Text) (b b' : List ℕ) (now : ℕ) (s : Store)
    → (redeem_code p row hash b b' now s).1.grants ≡ s.grants
unfolding redeem_code consume_code
redeem_code-grants p row hash b b' now s = grind (arith, issue_tokens-OnlyTokens)

exchange_token-grants :
    (p : Platform) (form : Fields) (b b' : List ℕ) (now : ℕ) (s : Store)
    → (exchange_token p form b b' now s).1.grants ≡ s.grants
unfolding exchange_token exchange_authorization_code
exchange_token-grants p form b b' now s =
    grind (arith, redeem_code-grants, exchange_refresh_token-OnlyTokens)

revoke_grants-keeps :
    (id other : Text) (now : ℕ) (gs : List Grant)
    → IsRevoked id gs
    → IsRevoked id (revoke_grants other now gs)
unfolding revoke_grants
revoke_grants-keeps id other now gs h = update-IsRevoked _ _ id gs (λ g. refl) (λ g k. refl) h

use_grant-keeps :
    (id other : Text) (now : ℕ) (gs : List Grant)
    → IsRevoked id gs
    → IsRevoked id (use_grant other now gs)
unfolding use_grant
use_grant-keeps id other now gs h = update-IsRevoked _ _ id gs (λ g. refl) (λ g k. k) h

revoke_token-keeps :
    (p : Platform) (id : Text) (form : Fields) (now : ℕ) (s : Store)
    → IsRevoked id s.grants
    → IsRevoked id (revoke_token p form now s).1.grants
unfolding revoke_token
revoke_token-keeps p id form now s h = grind (arith, revoke_grants-keeps)

revoke_agent-keeps :
    (id other : Text) (now : ℕ) (s : Store)
    → IsRevoked id s.grants
    → IsRevoked id (revoke_agent other now s).1.grants
unfolding revoke_agent
revoke_agent-keeps id other now s h = grind (arith, revoke_grants-keeps)

authenticate_oauth_bearer-keeps :
    (p : Platform) (id : Text) (header : Option Text) (now : ℕ) (s : Store)
    → IsRevoked id s.grants
    → IsRevoked id (authenticate_oauth_bearer p header now s).1.grants
unfolding authenticate_oauth_bearer
authenticate_oauth_bearer-keeps p id header now s h = grind (arith, use_grant-keeps)

decide_authorization-keeps :
    (p : Platform) (id : Text) (d : DecisionForm) (grant_id : Text) (bytes : List ℕ) (now : ℕ)
    (s : Store)
    → IsRevoked id s.grants
    → IsRevoked id (decide_authorization p d grant_id bytes now s).1.grants
decide_authorization-keeps p id d grant_id bytes now s h =
    elim (decide_authorization_cases p d grant_id bytes now s) [
      | inl e ↦ rw e h
      | inr (row, e, _) ↦
          rw e
            (elim (decide_request_cases p row d grant_id (random_token p "mcp_code" bytes) now s) [
              | inl same ↦ rw (same.1) h
              | inr added ↦ insert_grant-IsRevoked _ id s.grants added.2 h
            ])
    ]

handle-IsRevoked :
    (p : Platform) (id : Text) (e : Event) (s : Store)
    → IsRevoked id s.grants
    → IsRevoked id (handle p e s).grants
unfolding handle
handle-IsRevoked p id (registers body bytes now) s h =
    rw ((register_client-OnlyClients p body bytes now s).1) h
handle-IsRevoked p id (opens q o i b now) s h =
    rw ((authorization_page-OnlyRequests p q o i b now s).1) h
handle-IsRevoked p id (decides d g b now) s h = decide_authorization-keeps p id d g b now s h
handle-IsRevoked p id (exchanges f b b' now) s h = rw (exchange_token-grants p f b b' now s) h
handle-IsRevoked p id (revokes f now) s h = revoke_token-keeps p id f now s h
handle-IsRevoked p id (calls a now) s h = authenticate_oauth_bearer-keeps p id a now s h
handle-IsRevoked p id (revokes_agent i now) s h = revoke_agent-keeps id i now s h

run-IsRevoked :
    (p : Platform) (id : Text) (es : List Event) (s : Store)
    → IsRevoked id s.grants
    → IsRevoked id (run p es s).grants
unfolding run
run-IsRevoked p id [] s h = h
run-IsRevoked p id (e ∷ es) s h = run-IsRevoked p id es (handle p e s) (handle-IsRevoked p id e s h)

abbrev active : Text → Grant → Bool
active id g = (g.grant_id =ₜ id) && is_none g.revoked_at

revoke_grants-IsRevoked :
    (id : Text) (now : ℕ) (gs : List Grant)
    → is_some (find_grant id gs) ≡ true
    → IsRevoked id (revoke_grants id now gs)
unfolding find_grant first? update revoke_grants
revoke_grants-IsRevoked id now [] h = absurd (cc)
revoke_grants-IsRevoked id now (g ∷ gs) h = ground (arith, revoke_grants-IsRevoked id now gs)

count-active-find_grant :
    (id : Text) (gs : List Grant) → 0 < count (active id) gs → is_some (find_grant id gs) ≡ true
unfolding find_grant first? count
count-active-find_grant id [] h = absurd (omega arith)
count-active-find_grant id (g ∷ gs) h = ground (arith, count-active-find_grant id gs)

revoke_agent-IsRevoked :
    (id : Text) (now : ℕ) (s : Store)
    → (revoke_agent id now s).0 ≡ revoked now
    → IsRevoked id (revoke_agent id now s).1.grants
unfolding revoke_agent
revoke_agent-IsRevoked id now s e = elim (Bool-cases (count (active id) s.grants == 0)) [
  | inl n ↦ absurd (ground arith)
  | inr t ↦
      rw t (
        revoke_grants-IsRevoked id now s.grants
          (count-active-find_grant id s.grants (ground arith)))
]

-- Once an operator has revoked an agent's grant, no bearer token authenticates under that grant,
-- whatever requests come in between, refreshes and new authorizations among them.
pub revoke_agent_for_good :
    (p : Platform) (id : Text) (now : ℕ) (s : Store) (es : List Event) (header : Option Text)
    (later : ℕ) (a : Actor)
    → (revoke_agent id now s).0 ≡ revoked now
    → (authenticate_oauth_bearer p header later (run p es (revoke_agent id now s).1)).0 ≡ some a
    → a.grant_id ≢ id
revoke_agent_for_good p id now s es header later a e h same =
    let t = run p es (revoke_agent id now s).1 in
    let g = authenticate_oauth_bearer-IsAuthentic p header later t a h in
    let at_id : g.row.token.grant_id ≡ id = sym (ap (λ (b : Actor). b.grant_id) g.answer) ∙ same in
    let r : IsRevoked g.row.token.grant_id t.grants =
      rw at_id (run-IsRevoked p id es _ (revoke_agent-IsRevoked id now s e)) in
    ground (arith, g.granted, g.live_grant, r)
