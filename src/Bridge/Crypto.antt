-- ===== src/Bridge/Crypto.antt =====
-- ui/worker/lib/bridge-auth.ts: what the platform computes (`atob`, SHA-256, Ed25519) is a record of
-- functions; the hex and base64 helpers over it, and the two texts that are signed.
pub mod Canonical
use benis_phone.Common.{
  ℕ, ◌+◌, ◌-◌, ◌/◌, ◌%◌, String, Bool, Option, List, [], ◌∷◌, ◌++◌, map, leb, if◌then◌else◌,
}
use benis_phone.Common.Text.{Text, codes, is_lower, is_upper, hex}
use mathlib.Core.Option

-- `atob` gives the units of the decoded binary text, or throws; `verify` is `none` where it throws.
pub record Platform : Type 0 where
  pub atob : String → Option Text
  pub sha256 : List ℕ → List ℕ
  pub imports : List ℕ → Bool
  pub verify : List ℕ → List ℕ → Text → Option Bool

-- `hex.match(/.{1,2}/g)?.join(":") ?? hex`
unfoldable pub colons : Text → Text
colons [] = []
colons (a ∷ []) = a ∷ []
colons (a ∷ b ∷ []) = a ∷ b ∷ []
colons (a ∷ b ∷ c ∷ s) = a ∷ b ∷ b':' ∷ colons (c ∷ s)

-- The letters of ASCII, which are all that an HTTP method and a hexadecimal hash have.
unfoldable pub upper : ℕ → ℕ
upper c = if is_lower c then c - 32 else c

unfoldable pub lower : ℕ → ℕ
lower c = if is_upper c then c + 32 else c

-- `.join("\n")`
unfoldable pub join_lines : List Text → Text
join_lines [] = []
join_lines (x ∷ []) = x
join_lines (x ∷ y ∷ xs) = x ++ b'\n' ∷ join_lines (y ∷ xs)

unfoldable pub canonical_bridge_request : String → String → Text → String → String → Text
canonical_bridge_request method escaped_path body_hash timestamp nonce = join_lines (
    codes "v1"
    ∷ map upper (codes method)
    ∷ codes escaped_path
    ∷ map lower body_hash
    ∷ codes timestamp
    ∷ codes nonce
    ∷ [])

unfoldable pub enrollment_canonical_body :
    String → String → String → String → String → String → String → Text
enrollment_canonical_body request_id registration_id public_key hostname platform version
      timestamp =
    join_lines (
      codes "benis-phone-enrollment-v1"
      ∷ codes request_id
      ∷ codes registration_id
      ∷ codes public_key
      ∷ codes hostname
      ∷ codes platform
      ∷ codes version
      ∷ codes timestamp
      ∷ [])

module _ (p : Platform) where
  -- `Uint8Array.from` keeps the low byte of each unit.
  unfoldable pub base64_to_bytes : String → Option (List ℕ)
  base64_to_bytes value = Option.map (map (λ u. u % 256)) (p.atob value)

  unfoldable pub sha256_hex_bytes : List ℕ → Text
  unfolding hex
  sha256_hex_bytes bytes = hex (p.sha256 bytes)

  unfoldable pub fingerprint_for_public_key : List ℕ → Text
  unfolding colons sha256_hex_bytes
  fingerprint_for_public_key public_key = colons (sha256_hex_bytes public_key)
