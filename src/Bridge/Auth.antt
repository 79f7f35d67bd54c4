-- ===== src/Bridge/Auth.antt =====
-- `authenticateBridge` of ui/worker/lib/bridge-auth.ts.
pub mod Future
pub mod Nonces
pub mod Sound
use benis_phone.Common.{
  ℕ, ◌+◌, ◌-◌, String, Bool, true, false, not, ◌&&◌, Option, none, some, List, ◌∷◌, leb, ltb, ◌=ₛ◌,
  is_none, if◌then◌else◌,
}
use benis_phone.Common.Table.{first?, delete}
use benis_phone.Common.Text.{
  Text, codes, matches, is_digit, is_word_dash, is_hex_dash, to_number, max_safe_integer,
}
use benis_phone.Bridge.Store.{Bridge, Nonce, Store}
use benis_phone.Bridge.Crypto.{
  Platform, base64_to_bytes, sha256_hex_bytes, canonical_bridge_request,
}

-- A header that is absent is "".
pub record SignedRequest : Type 0 where
  pub method : String
  pub path : String
  pub bridge_id : String
  pub timestamp : String
  pub nonce : String
  pub signature : String
  pub body : List ℕ

pub record AuthenticatedBridge : Type 0 where
  pub bridge_id : String
  pub config_name : String
  pub fingerprint : Text

abbrev pub clock_skew_seconds : ℕ
clock_skew_seconds = 300

-- The guard on the four headers.
unfoldable pub headers_ok : SignedRequest → Bool
unfolding codes matches
headers_ok req =
    matches is_hex_dash 36 36 (codes req.bridge_id)
    && matches is_digit 1 16 (codes req.timestamp)
    && matches is_word_dash 16 128 (codes req.nonce)
    && not (req.signature =ₛ "")

unfoldable pub signed_at : SignedRequest → ℕ
unfolding codes to_number
signed_at req = to_number (codes req.timestamp)

-- `Number.isSafeInteger(signedAt) && Math.abs(now - signedAt) <= skew`
unfoldable pub clock_ok : ℕ → ℕ → Bool
clock_ok now signed =
    leb signed max_safe_integer
    && leb (now - signed) clock_skew_seconds
    && leb (signed - now) clock_skew_seconds

-- `row.revoked_at === null` for the row of that id.
unfoldable pub find_bridge : String → List Bridge → Option Bridge
find_bridge id bridges = first? (λ b. b.bridge_id =ₛ id) bridges

module _ (p : Platform) where
  -- `importKey` and `verify`, each `false` where it throws.
  unfoldable pub signature_ok : SignedRequest → Bridge → Bool
  unfolding base64_to_bytes sha256_hex_bytes canonical_bridge_request
  signature_ok req row = elim (base64_to_bytes p row.public_key) [
    | none ↦ false
    | some key ↦
        if p.imports key
        then elim (base64_to_bytes p req.signature) [
          | none ↦ false
          | some signature ↦
              elim (p.verify key signature (
                canonical_bridge_request req.method req.path (sha256_hex_bytes p req.body)
                  req.timestamp req.nonce)) [ none ↦ false | some valid ↦ valid ]
        ]
        else false
  ]

  -- Everything before the nonce is spent; `none` is `return null`.
  unfoldable pub check_request : SignedRequest → ℕ → List Bridge → Option Bridge
  check_request req now bridges =
      if headers_ok req && clock_ok now (signed_at req)
      then elim (find_bridge req.bridge_id bridges) [
        | none ↦ none
        | some row ↦ if is_none row.revoked_at && signature_ok req row then some row else none
      ]
      else none

-- `DELETE FROM bridge_nonces WHERE expires_at < now`
unfoldable pub purge_nonces : ℕ → List Nonce → List Nonce
unfolding delete
purge_nonces now nonces = delete (λ n. ltb n.expires_at now) nonces

-- The primary key of `bridge_nonces`.
abbrev pub same_nonce : String → String → Nonce → Bool
same_nonce id nonce n = (n.bridge_id =ₛ id) && (n.nonce =ₛ nonce)

-- `INSERT OR IGNORE`, with the number of changed rows as a Boolean.
unfoldable pub insert_nonce : Nonce → List Nonce → List Nonce × Bool
insert_nonce n nonces =
    if is_none (first? (same_nonce n.bridge_id n.nonce) nonces)
    then (n ∷ nonces, true)
    else (nonces, false)

unfoldable pub spend_nonce : SignedRequest → ℕ → List Nonce → List Nonce × Bool
spend_nonce req now nonces =
    insert_nonce
      (record {
        bridge_id = req.bridge_id;
        nonce = req.nonce;
        expires_at = now + clock_skew_seconds;
      })
      (purge_nonces now nonces)

abbrev pub authenticated : Bridge → AuthenticatedBridge
authenticated row = record {
  bridge_id = row.bridge_id;
  config_name = row.config_name;
  fingerprint = row.fingerprint;
}

unfoldable pub authenticate_bridge :
    Platform → SignedRequest → ℕ → Store → Option AuthenticatedBridge × Store
authenticate_bridge p req now s = elim (check_request p req now s.bridges) [
  | none ↦ (none, s)
  | some row ↦
      let (nonces, inserted) = spend_nonce req now s.nonces in
      (if inserted then some (authenticated row) else none, record s { nonces = nonces })
]
