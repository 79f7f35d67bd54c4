-- ===== src/Config/Secrets/Sealed.antt =====
-- What was encrypted is decrypted again.
use benis_phone.Common.{
  ℕ, ◌≡◌, refl, ap, sym, ◌∙◌, Bool, true, false, not, ◌&&◌, none, some, List, [], ◌∷◌, subst, arith,
  Option-cases, inl, inr, some-inj,
}
use benis_phone.Common.Text.{Text, codes, ◌=ₜ◌, has_text, =ₜ_iff}
use benis_phone.Config.Json.{str, obj, Members, member, get_member}
use benis_phone.Config.Store.{EncryptedSecret}
use benis_phone.Config.Secrets.{
  Cipher, credential_keys, CredentialBundle, bundle_members, text_at, read_bundle, read_keys,
  credential_aad, aad, encryption_key, encrypt, decrypt, open_sealed, encrypt_sip_password,
  decrypt_sip_password, encrypt_credential_bundle, decrypt_credential_bundle,
}

module _ (c : Cipher) where
  -- What the platform promises on one text under one key.
  pub record IsReversible (text : Text) : Type 0 where
    pub base64 : (bytes : List ℕ) → c.atob (c.btoa bytes) ≡ some bytes
    pub aes_gcm :
        (key iv additional cleartext : List ℕ)
        → c.unseal key iv additional (c.seal key iv additional cleartext) ≡ some cleartext
    pub utf8 : c.decode (c.encode text) ≡ text

  abbrev pub sealed : List ℕ → List ℕ → Text → Text → EncryptedSecret
  sealed key iv additional text = record {
    version = 1;
    iv = c.btoa iv;
    ciphertext = c.btoa (c.seal key iv (c.encode additional) (c.encode text));
  }

  decrypt-encrypt :
      (encoded text additional : Text) (iv : List ℕ) {s : EncryptedSecret}
      → IsReversible text
      → encrypt c encoded iv additional text ≡ some s
      → decrypt c encoded s additional ≡ some text
  unfolding encrypt decrypt open_sealed
  decrypt-encrypt encoded text additional iv {s} r h =
      elim (Option-cases (encryption_key c encoded)) [
        | inl n ↦ let h' : none ≡ some s = rw (encrypt, n) at h in absurd (ground arith)
        | inr (key, e) ↦
            let fwd : encrypt c encoded iv additional text ≡ some (sealed key iv additional text) =
              rw (encrypt, e) refl in
            let back : decrypt c encoded (sealed key iv additional text) additional ≡ some text =
              rw (decrypt, open_sealed, r.base64, e) (rw (r.base64, r.aes_gcm, r.utf8) refl) in
            subst (λ x. decrypt c encoded x additional ≡ some text) (some-inj (sym fwd ∙ h)) back
      ]

  -- A SIP password that was encrypted for a connection of a configuration is what decrypting its
  -- row gives, where the platform reverses base64, AES-GCM under one key, vector and additional
  -- data, and the UTF-8 of the password.
  pub decrypt_sip_password-encrypt_sip_password :
      (encoded name connection_id password : Text) (iv : List ℕ) (now : ℕ) {s : EncryptedSecret}
      → IsReversible password
      → encrypt_sip_password c encoded name connection_id password iv ≡ some s
      → decrypt_sip_password c encoded (record {
        config_name = name;
        connection_id = connection_id;
        secret = s;
        updated_at = now;
      })
        ≡ some password
  unfolding encrypt_sip_password decrypt_sip_password
  decrypt_sip_password-encrypt_sip_password encoded name connection_id password iv now {s} r h =
      decrypt-encrypt encoded password (aad name connection_id) iv r h

abbrev pub keys_of : CredentialBundle → List Text
keys_of [] = []
keys_of ((k, v) ∷ bundle) = k ∷ keys_of bundle

abbrev apart : List Text → Bool
apart [] = true
apart (k ∷ ks) = not (has_text ks k) && apart ks

text_at-here : (k v : Text) (ms : Members) → (k =ₜ k) ≡ true → text_at (member k (str v) ms) k ≡ v
unfolding get_member
text_at-here k v ms h = ground arith

text_at-behind :
    (k v key : Text) (ms : Members)
    → (k =ₜ key) ≡ false
    → text_at (member k (str v) ms) key ≡ text_at ms key
unfolding get_member
text_at-behind k v key ms h = ground arith

-- Reading a member in front of which stand other keys.
read_keys-member :
    (k v : Text) (ms : Members) (ks : List Text)
    → has_text ks k ≡ false
    → read_keys (member k (str v) ms) ks ≡ read_keys ms ks
unfolding has_text get_member read_keys
read_keys-member k v ms [] h = refl
read_keys-member k v ms (key ∷ ks) h =
    let other : (k =ₜ key) ≡ false = ground (arith, =ₜ_iff k key, =ₜ_iff key k) in
    let rest : has_text ks k ≡ false = ground arith in
    cc (text_at-behind k v key ms other, read_keys-member k v ms ks rest)

read_keys-bundle :
    (bundle : CredentialBundle)
    → apart (keys_of bundle) ≡ true
    → read_keys (bundle_members bundle) (keys_of bundle) ≡ bundle
unfolding has_text get_member bundle_members read_keys
read_keys-bundle [] h = refl
read_keys-bundle ((k, v) ∷ bundle) h =
    let here : (k =ₜ k) ≡ true = (=ₜ_iff k k).1 refl in
    let alone : has_text (keys_of bundle) k ≡ false = ground arith in
    let rest : apart (keys_of bundle) ≡ true = ground arith in
    cc (
      text_at-here k v (bundle_members bundle) here,
      read_keys-member k v (bundle_members bundle) (keys_of bundle) alone,
      read_keys-bundle bundle rest,
    )

credential_keys-apart : apart credential_keys ≡ true
unfolding credential_keys has_text ◌=ₜ◌ codes
credential_keys-apart = refl

module _ (c : Cipher) where
  -- A bundle with a value for each credential, in the order of `CREDENTIAL_KEYS`, that was encrypted
  -- for a configuration is what decrypting its row gives, where the platform reverses base64,
  -- AES-GCM under one key, vector and additional data, and the UTF-8 and the JSON of the bundle.
  pub decrypt_credential_bundle-encrypt_credential_bundle :
      (encoded name : Text) (bundle : CredentialBundle) (iv : List ℕ) (now : ℕ)
      {s : EncryptedSecret}
      → keys_of bundle ≡ credential_keys
      → IsReversible c (c.stringify (obj (bundle_members bundle)))
      → c.parse (c.stringify (obj (bundle_members bundle))) ≡ some (obj (bundle_members bundle))
      → encrypt_credential_bundle c encoded name bundle iv ≡ some s
      → decrypt_credential_bundle c encoded
          (record { config_name = name; secret = s; updated_at = now })
        ≡ some bundle
  unfolding encrypt_credential_bundle decrypt_credential_bundle read_bundle
  decrypt_credential_bundle-encrypt_credential_bundle encoded name bundle iv now {s} k r parses h =
      let text = c.stringify (obj (bundle_members bundle)) in
      let opened : decrypt c encoded s (credential_aad name) ≡ some text =
        decrypt-encrypt c encoded text (credential_aad name) iv r h in
      let same : read_keys (bundle_members bundle) credential_keys ≡ bundle =
        subst (λ ks. read_keys (bundle_members bundle) ks ≡ bundle) k
          (read_keys-bundle bundle (rw (sym k) at credential_keys-apart)) in
      rw (opened, parses) (ap some same)
