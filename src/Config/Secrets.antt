-- ===== src/Config/Secrets.antt =====
-- ui/worker/lib/secrets.ts: SIP passwords and the bundle of credentials, encrypted with AES-GCM
-- under the name of their configuration. WebCrypto, the text codecs and JSON are the functions of
-- `Cipher`; `none` stands for an exception.
mod Tests
pub mod Stale
pub mod Sealed
pub mod Bound
use benis_phone.Common.{
  ◌>>=◌, ℕ, String, Bool, true, false, not, Option, none, some, List, [], ◌∷◌, ◌++◌, map, length,
  ◌==◌, if◌then◌else◌,
}
use benis_phone.Common.Table.{first?, filter}
use benis_phone.Common.Text.{Text, codes, ◌=ₜ◌}
use benis_phone.Config.Json.{Json, null, str, obj, Members, end, member, get_member}
use benis_phone.Config.Document.{text_of, has_id}
use benis_phone.Config.Store.{
  EncryptedSecret, SipSecretRow, CredentialBundleRow, Db, list_sip_secrets,
}

-- `seal key iv aad data` and `unseal key iv aad data` are `crypto.subtle.encrypt` and `decrypt`.
pub record Cipher : Type 0 where
  pub atob : Text → Option (List ℕ)
  pub btoa : List ℕ → Text
  pub encode : Text → List ℕ
  pub decode : List ℕ → Text
  pub stringify : Json → Text
  pub parse : Text → Option Json
  pub seal : List ℕ → List ℕ → List ℕ → List ℕ → List ℕ
  pub unseal : List ℕ → List ℕ → List ℕ → List ℕ → Option (List ℕ)

unfoldable pub filter_sip_secrets : List SipSecretRow → List (Option Text) → List SipSecretRow
filter_sip_secrets rows ids = filter (λ (s : SipSecretRow). has_id ids s.connection_id) rows

unfoldable pub stale_sip_secrets : List SipSecretRow → List (Option Text) → List SipSecretRow
stale_sip_secrets rows ids = filter (λ (s : SipSecretRow). not (has_id ids s.connection_id)) rows

unfoldable pub credential_keys : List Text
unfolding codes
credential_keys =
    codes "r2_access_key"
    ∷ codes "r2_secret_key"
    ∷ codes "r2_account_id"
    ∷ codes "r2_bucket"
    ∷ codes "polly_key"
    ∷ codes "polly_secret"
    ∷ codes "elevenlabs_api_key"
    ∷ codes "backend_username"
    ∷ codes "backend_password"
    ∷ codes "trafikverket_key"
    ∷ codes "media_server_url"
    ∷ codes "http_username"
    ∷ codes "http_password"
    ∷ []

-- The members of a bundle in the order of the keys.
abbrev pub CredentialBundle : Type 0
CredentialBundle = List (Text × Text)

unfoldable pub empty_credential_bundle : CredentialBundle
unfolding credential_keys
empty_credential_bundle = map (λ key. (key, [])) credential_keys

-- `bundle[key] = value`, of a key that is there.
unfoldable pub set_credential : Text → Text → CredentialBundle → CredentialBundle
set_credential key value [] = []
set_credential key value ((k, v) ∷ bundle) =
    (k, if k =ₜ key then value else v) ∷ set_credential key value bundle

-- `Object.fromEntries(CREDENTIAL_KEYS.map((key) => [key, bundle[key] !== ""]))`
unfoldable pub credential_state : CredentialBundle → List (Text × Bool)
credential_state [] = []
credential_state ((k, v) ∷ bundle) = (k, not (v =ₜ [])) ∷ credential_state bundle

unfoldable pub bundle_members : CredentialBundle → Members
bundle_members [] = end
bundle_members ((k, v) ∷ bundle) = member k (str v) (bundle_members bundle)

-- `typeof decoded[key] === "string" ? decoded[key] : ""`
abbrev pub text_at : Members → Text → Text
text_at ms key = elim (text_of (get_member key ms)) [ none ↦ [] | some t ↦ t ]

-- The loop over the keys; reading a member of `null` throws.
unfoldable pub read_keys : Members → List Text → CredentialBundle
read_keys ms [] = []
read_keys ms (key ∷ keys) = (key, text_at ms key) ∷ read_keys ms keys

unfoldable pub read_bundle : Json → Option CredentialBundle
unfolding read_keys
read_bundle null = none
read_bundle (obj ms) = some (read_keys ms credential_keys)
read_bundle _ = some (read_keys end credential_keys)

unfoldable pub credential_aad : Text → Text
unfolding codes
credential_aad name = codes "benis-pbx:credentials:v1:" ++ name

unfoldable pub aad : Text → Text → Text
unfolding codes
aad name connection_id = codes "benis-pbx:sip:v1:" ++ (name ++ (b':' ∷ connection_id))

module _ (c : Cipher) where
  unfoldable pub encryption_key : Text → Option (List ℕ)
  encryption_key encoded = if encoded =ₜ [] then none else elim (c.atob encoded) [
    | none ↦ none
    | some raw ↦ if length raw == 32 then some raw else none
  ]

  -- What the two functions that encrypt have in common: version 1, a random `iv`, additional data
  -- and a text.
  unfoldable pub encrypt : Text → List ℕ → Text → Text → Option EncryptedSecret
  unfolding encryption_key
  encrypt encoded iv additional text = elim (encryption_key encoded) [
    | none ↦ none
    | some key ↦ some (record {
      version = 1;
      iv = c.btoa iv;
      ciphertext = c.btoa (c.seal key iv (c.encode additional) (c.encode text));
    })
  ]

  -- What the two functions that decrypt have in common.
  unfoldable pub open_sealed : Text → EncryptedSecret → Text → Option Text
  unfolding encryption_key
  open_sealed encoded row additional = do
    iv ← c.atob row.iv
    key ← encryption_key encoded
    ciphertext ← c.atob row.ciphertext
    cleartext ← c.unseal key iv (c.encode additional) ciphertext
    some (c.decode cleartext)

  unfoldable pub decrypt : Text → EncryptedSecret → Text → Option Text
  unfolding open_sealed
  decrypt encoded row additional =
      if row.version == 1 then open_sealed encoded row additional else none

  unfoldable pub encrypt_sip_password : Text → Text → Text → Text → List ℕ → Option EncryptedSecret
  unfolding encrypt aad
  encrypt_sip_password encoded name connection_id password iv =
      encrypt encoded iv (aad name connection_id) password

  unfoldable pub decrypt_sip_password : Text → SipSecretRow → Option Text
  unfolding decrypt aad
  decrypt_sip_password encoded row =
      decrypt encoded row.secret (aad row.config_name row.connection_id)

  unfoldable pub encrypt_credential_bundle :
      Text → Text → CredentialBundle → List ℕ → Option EncryptedSecret
  unfolding encrypt credential_aad
  encrypt_credential_bundle encoded name bundle iv =
      encrypt encoded iv (credential_aad name) (c.stringify (obj (bundle_members bundle)))

  unfoldable pub decrypt_credential_bundle : Text → CredentialBundleRow → Option CredentialBundle
  unfolding decrypt credential_aad
  decrypt_credential_bundle encoded row = do
    text ← decrypt encoded row.secret (credential_aad row.config_name)
    decoded ← c.parse text
    read_bundle decoded

  unfoldable pub get_credential_bundle : Text → Text → Db → Option CredentialBundle
  unfolding decrypt_credential_bundle empty_credential_bundle
  get_credential_bundle encoded name db =
      elim (first? (λ (b : CredentialBundleRow). b.config_name =ₜ name) db.bundles) [
        | none ↦ some empty_credential_bundle
        | some row ↦ decrypt_credential_bundle encoded row
      ]

  -- `decryptedSIPPasswords`: the rows in order, as pairs of a connection and its password.
  unfoldable pub decrypt_rows : Text → List SipSecretRow → Option (List (Text × Text))
  unfolding decrypt_sip_password
  decrypt_rows encoded [] = some []
  decrypt_rows encoded (row ∷ rows) = do
    password ← decrypt_sip_password encoded row
    rest ← decrypt_rows encoded rows
    some ((row.connection_id, password) ∷ rest)

  unfoldable pub decrypted_sip_passwords :
      Text → Text → Option (List (Option Text)) → Db → Option (List (Text × Text))
  unfolding decrypt_rows filter_sip_secrets list_sip_secrets
  decrypted_sip_passwords encoded name allowed db = elim allowed [
    | none ↦ decrypt_rows encoded (list_sip_secrets name db)
    | some ids ↦ decrypt_rows encoded (filter_sip_secrets (list_sip_secrets name db) ids)
  ]
