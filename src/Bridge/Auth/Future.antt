-- ===== src/Bridge/Auth/Future.antt =====
-- A request with a time stamp ahead of the clock.
use benis_phone.Common.{
  ℕ, ◌+◌, ◌<◌, String, ◌≡◌, refl, true, false, some, List, [], ◌∷◌, arith, Bool-cases, Option-cases,
  inl, inr, is_none, any,
}
use benis_phone.Common.Table.{first?}
use benis_phone.Bridge.Store.{Bridge, Nonce, Store}
use benis_phone.Bridge.Crypto.{Platform}
use benis_phone.Bridge.Auth.{
  SignedRequest, AuthenticatedBridge, signed_at, clock_ok, check_request, same_nonce, purge_nonces,
  insert_nonce, spend_nonce, authenticate_bridge,
}
use benis_phone.Bridge.Auth.Nonces.{same_nonce-first?-purge_nonces}

first?-none-any :
    (id nonce : String) (ns : List Nonce)
    → is_none (first? (same_nonce id nonce) ns) ≡ true
    → any (same_nonce id nonce) ns ≡ false
unfolding first?
first?-none-any id nonce [] h = refl
first?-none-any id nonce (n ∷ ns) h = ground (arith, first?-none-any id nonce ns)

-- At the second `now + 301` the nonce that was spent at `now` is purged, and can be spent again.
spend_nonce_again :
    (req : SignedRequest) (now : ℕ) (ns : List Nonce)
    → (spend_nonce req now ns).1 ≡ true
    → (spend_nonce req (now + 301) (spend_nonce req now ns).0).1 ≡ true
spend_nonce_again req now ns h =
    elim (Bool-cases
      (is_none (first? (same_nonce req.bridge_id req.nonce) (purge_nonces now ns)))) [
        | inr taken ↦ absurd (unfold spend_nonce insert_nonce in ground arith)
        | inl free ↦
            unfold spend_nonce insert_nonce purge_nonces in
            ground (
              arith,
              same_nonce-first?-purge_nonces req.bridge_id req.nonce (now + 301)
                  (purge_nonces now ns)
                  (first?-none-any req.bridge_id req.nonce (purge_nonces now ns) free),
            )
      ]

check_request_again :
    (p : Platform) (req : SignedRequest) (now : ℕ) (bs : List Bridge) (row : Bridge)
    → check_request p req now bs ≡ some row
    → now < signed_at req
    → check_request p req (now + 301) bs ≡ some row
unfolding check_request clock_ok
check_request_again p req now bs row h ahead = ground arith

-- A request that is accepted before its time stamp is accepted a second time 301 seconds later,
-- when its nonce has been purged and its time stamp is still within the tolerated skew.
pub authenticate_bridge_twice :
    (p : Platform) (req : SignedRequest) (now : ℕ) (s : Store) (a : AuthenticatedBridge)
    → (authenticate_bridge p req now s).0 ≡ some a
    → now < signed_at req
    → (authenticate_bridge p req (now + 301) (authenticate_bridge p req now s).1).0 ≡ some a
authenticate_bridge_twice p req now s a h ahead =
    elim (Option-cases (check_request p req now s.bridges)) [
      | inl n ↦ absurd (unfold authenticate_bridge in ground arith)
      | inr (row, e) ↦
          unfold authenticate_bridge in
          ground (
            arith,
            check_request_again p req now s.bridges row e ahead,
            spend_nonce_again req now s.nonces,
          )
    ]
