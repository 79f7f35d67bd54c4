-- ===== src/Bridge/Auth/Sound.antt =====
-- When `authenticateBridge` accepts a request.
use benis_phone.Common.{
  ℕ, ◌+◌, ◌≤◌, ◌≡◌, refl, ◌∙◌, ap, true, Option, none, some, List, arith, Option-cases, inl, inr,
  is_none, any, leb, false, [], ◌∷◌, ◌&&◌, String,
}
use benis_phone.Common.Table.{first?}
use benis_phone.Bridge.Store.{Bridge, Nonce, Store}
use benis_phone.Bridge.Crypto.{
  Platform, base64_to_bytes, sha256_hex_bytes, canonical_bridge_request,
}
use benis_phone.Bridge.Auth.{
  SignedRequest, AuthenticatedBridge, headers_ok, signed_at, clock_ok, find_bridge, signature_ok,
  check_request, same_nonce, insert_nonce, purge_nonces, spend_nonce, authenticated,
  authenticate_bridge,
}

-- The request carries a signature of its canonical text under the key of the row.
pub record IsSignedBy (p : Platform) (req : SignedRequest) (row : Bridge) : Type 0 where
  pub key : List ℕ
  pub signature : List ℕ
  pub key_bytes : base64_to_bytes p row.public_key ≡ some key
  pub signature_bytes : base64_to_bytes p req.signature ≡ some signature
  pub imported : p.imports key ≡ true
  pub verified :
      p.verify key signature (
        canonical_bridge_request req.method req.path
          (sha256_hex_bytes p req.body)
          req.timestamp
          req.nonce)
      ≡ some true

pub signature_ok-IsSignedBy :
    (p : Platform) (req : SignedRequest) (row : Bridge)
    → signature_ok p req row ≡ true
    → IsSignedBy p req row
unfolding signature_ok
signature_ok-IsSignedBy p req row h = elim (Option-cases (base64_to_bytes p row.public_key)) [
  | inl n ↦ absurd (ground arith)
  | inr (key, e) ↦ elim (Option-cases (base64_to_bytes p req.signature)) [
    | inl n ↦ absurd (ground arith)
    | inr (signature, f) ↦ record {
      key = key;
      signature = signature;
      key_bytes = e;
      signature_bytes = f;
      imported = ground arith;
      verified = ground arith;
    }
  ]
]

-- What is known of a request that was accepted at `now`, and of the answer.
pub record IsGenuine (p : Platform) (req : SignedRequest) (now : ℕ) (s : Store)
    (a : AuthenticatedBridge) : Type 0 where
  pub row : Bridge
  pub registered : find_bridge req.bridge_id s.bridges ≡ some row
  pub active : row.revoked_at ≡ none
  pub not_late : now ≤ signed_at req + 300
  pub not_early : signed_at req ≤ now + 300
  pub signed : IsSignedBy p req row
  pub unspent : first? (same_nonce req.bridge_id req.nonce) (purge_nonces now s.nonces) ≡ none
  pub unheld :
      any (λ (n : Nonce). same_nonce req.bridge_id req.nonce n && leb now n.expires_at) s.nonces
      ≡ false
  pub answer : a ≡ authenticated row

pub clock_ok_bounds :
    (now signed : ℕ) → clock_ok now signed ≡ true → (now ≤ signed + 300) × (signed ≤ now + 300)
unfolding clock_ok
clock_ok_bounds now signed h = ground arith

pub check_request-eq-some :
    (p : Platform) (req : SignedRequest) (now : ℕ) (bs : List Bridge) (row : Bridge)
    → check_request p req now bs ≡ some row
    → (find_bridge req.bridge_id bs ≡ some row)
      × (row.revoked_at ≡ none)
      × (clock_ok now (signed_at req) ≡ true)
      × (headers_ok req ≡ true)
      × (signature_ok p req row ≡ true)
unfolding check_request
check_request-eq-some p req now bs row h = elim (Option-cases (find_bridge req.bridge_id bs)) [
  | inl n ↦ absurd (ground arith)
  | inr (found, e) ↦
      let same : found ≡ row = ground arith in
      (e ∙ ap some same, ground arith, ground arith, ground arith, ground arith)
]

pub is_none-eq {ℓ} : {A : Type ℓ} (o : Option A) → is_none o ≡ true → o ≡ none
is_none-eq none h = refl
is_none-eq (some a) h = absurd (ground arith)

pub spend_nonce-unspent :
    (req : SignedRequest) (now : ℕ) (ns : List Nonce)
    → (spend_nonce req now ns).1 ≡ true
    → first? (same_nonce req.bridge_id req.nonce) (purge_nonces now ns) ≡ none
unfolding spend_nonce insert_nonce
spend_nonce-unspent req now ns h = is_none-eq _ (ground arith)

-- What the purge leaves unfound is in no row that is still held.
purge_nonces-unheld :
    (id nonce : String) (now : ℕ) (ns : List Nonce)
    → first? (same_nonce id nonce) (purge_nonces now ns) ≡ none
    → any (λ (n : Nonce). same_nonce id nonce n && leb now n.expires_at) ns ≡ false
unfolding first? purge_nonces
purge_nonces-unheld id nonce now [] h = refl
purge_nonces-unheld id nonce now (n ∷ ns) h = ground (arith, purge_nonces-unheld id nonce now ns)

-- An accepted request is answered for the active bridge of its id, carries a valid signature under
-- that bridge's key, is at most 300 seconds off the clock, and no row of its bridge and nonce that
-- has not expired was in the table; rows that have expired are purged first and do not count.
pub authenticate_bridge-IsGenuine :
    (p : Platform) (req : SignedRequest) (now : ℕ) (s : Store) (a : AuthenticatedBridge)
    → (authenticate_bridge p req now s).0 ≡ some a
    → IsGenuine p req now s a
unfolding authenticate_bridge
authenticate_bridge-IsGenuine p req now s a h =
    elim (Option-cases (check_request p req now s.bridges)) [
      | inl n ↦ absurd (ground arith)
      | inr (row, e) ↦
          let (found, active, clock, _, signed) = check_request-eq-some p req now s.bridges row e in
          let (late, early) = clock_ok_bounds now (signed_at req) clock in
          let unspent = spend_nonce-unspent req now s.nonces (ground arith) in
          record {
            row = row;
            registered = found;
            active = active;
            not_late = late;
            not_early = early;
            signed = signature_ok-IsSignedBy p req row signed;
            unspent = unspent;
            unheld = purge_nonces-unheld req.bridge_id req.nonce now s.nonces unspent;
            answer = ground arith;
          }
    ]
