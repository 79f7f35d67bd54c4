-- ===== src/Config/Secrets/Tests.antt =====
-- Secrets under a concrete cipher: the additional data stands in front of the text.
use benis_phone.Common.{
  ℕ, ◌≡◌, ◌≢◌, refl, Bool, true, false, inl, inr, Option, none, some, List, [], ◌∷◌, ◌++◌, map,
  length, ◌==◌, ==_iff, arith, Bool-cases,
}
use benis_phone.Common.Text.{Text, codes, ◌=ₜ◌, strip_prefix, matches}
use benis_phone.Config.Json.{obj}
use benis_phone.Config.Sip.{id_ok}
use benis_phone.Config.Store.{EncryptedSecret, is_config_name}
use benis_phone.Config.Secrets.{
  Cipher, credential_keys, CredentialBundle, bundle_members, aad, credential_aad, encryption_key,
  encrypt, encrypt_sip_password, decrypt_sip_password, encrypt_credential_bundle,
  decrypt_credential_bundle,
}
use benis_phone.Config.Secrets.Sealed.{
  IsReversible, keys_of, decrypt_sip_password-encrypt_sip_password,
  decrypt_credential_bundle-encrypt_credential_bundle,
}
use benis_phone.Config.Secrets.Bound.{IsAuthenticated, decrypt_sip_password-other}

abbrev bundle : CredentialBundle
bundle = map (λ key. (key, codes "value")) credential_keys

abbrev if_length : Bool → Option (List ℕ) → Option (List ℕ)
if_length true text = text
if_length false text = none

abbrev open_with : List ℕ → List ℕ → Option (List ℕ)
open_with additional [] = none
open_with additional (n ∷ s) = if_length (n == length additional) (strip_prefix additional s)

abbrev cipher : Cipher
cipher = record {
  atob = λ t. some t;
  btoa = λ bytes. bytes;
  encode = λ t. t;
  decode = λ bytes. bytes;
  stringify = λ j. [];
  parse = λ t. some (obj (bundle_members bundle));
  seal = λ key iv additional text. length additional ∷ additional ++ text;
  unseal = λ key iv additional sealed. open_with additional sealed;
}

strip_prefix-append : (a t : Text) → strip_prefix a (a ++ t) ≡ some t
unfolding strip_prefix
strip_prefix-append [] t = refl
strip_prefix-append (c ∷ a) t = ground (arith, strip_prefix-append a t)

strip_prefix-other : (a b t : Text) → length a ≡ length b → a ≢ b → strip_prefix b (a ++ t) ≡ none
unfolding strip_prefix
strip_prefix-other [] [] t l h = absurd (h refl)
strip_prefix-other [] (d ∷ b) t l h = absurd (omega (arith, l))
strip_prefix-other (c ∷ a) [] t l h = absurd (omega (arith, l))
strip_prefix-other (c ∷ a) (d ∷ b) t l h = elim (Bool-cases (d == c)) [
  | inl e ↦
      let same = (==_iff d c).0 e in
      rw e (strip_prefix-other a b t (omega (arith, l)) (λ k. h (cc (same, k))))
  | inr n ↦ rw n refl
]

opened : (a t : Text) → open_with a (length a ∷ a ++ t) ≡ some t
opened a t = rw ((==_iff (length a) (length a)).1 refl) (strip_prefix-append a t)

not_opened : (a b t : Text) → a ≢ b → open_with b (length a ∷ a ++ t) ≡ none
not_opened a b t h = elim (Bool-cases (length a == length b)) [
  | inl e ↦ rw e (strip_prefix-other a b t ((==_iff (length a) (length b)).0 e) h)
  | inr n ↦ rw n refl
]

reversible : (text : Text) → IsReversible cipher text
reversible text = record {
  base64 = λ bytes. refl;
  aes_gcm = λ key iv additional cleartext. opened additional cleartext;
  utf8 = refl;
}

authenticated : IsAuthenticated cipher
authenticated = record {
  base64 = λ bytes. refl;
  aes_gcm = λ key iv cleartext a b ha hb h. not_opened a b cleartext h;
}

abbrev key : Text
key = codes "0123456789abcdef0123456789abcdef"

abbrev stored : EncryptedSecret
stored = record {
  version = 1;
  iv = [];
  ciphertext =
      length (aad (codes "main") (codes "c1")) ∷ aad (codes "main") (codes "c1") ++ codes "pw";
}

encrypted :
    encrypt_sip_password cipher key (codes "main") (codes "c1") (codes "pw") [] ≡ some stored
unfolding encrypt_sip_password encrypt encryption_key codes ◌=ₜ◌
encrypted = refl

decrypt_sip_password-encrypt_sip_password_example :
    decrypt_sip_password cipher key (record {
      config_name = codes "main";
      connection_id = codes "c1";
      secret = stored;
      updated_at = 7;
    })
    ≡ some (codes "pw")
decrypt_sip_password-encrypt_sip_password_example =
    decrypt_sip_password-encrypt_sip_password cipher key (codes "main") (codes "c1") (codes "pw") []
      7 (reversible (codes "pw")) encrypted

names : (is_config_name (codes "main") ≡ true) × (id_ok (some (codes "c1")) ≡ true)
unfolding is_config_name id_ok matches codes
names = (refl, refl)

other_name : (is_config_name (codes "copy") ≡ true) × (codes "main" ≢ codes "copy")
unfolding is_config_name matches codes
other_name = (refl, λ e. ground arith)

decrypt_sip_password-other_example :
    decrypt_sip_password cipher key (record {
      config_name = codes "copy";
      connection_id = codes "c1";
      secret = stored;
      updated_at = 7;
    })
    ≡ none
decrypt_sip_password-other_example =
    decrypt_sip_password-other cipher key (codes "main") (codes "c1") (codes "pw") (codes "copy")
      (codes "c1") [] 7 authenticated names.0 other_name.0 names.1 names.1 (inl other_name.1)
      encrypted

abbrev stored_bundle : EncryptedSecret
stored_bundle = record {
  version = 1;
  iv = [];
  ciphertext = length (credential_aad (codes "main")) ∷ credential_aad (codes "main") ++ [];
}

bundle-encrypted :
    encrypt_credential_bundle cipher key (codes "main") bundle [] ≡ some stored_bundle
unfolding encrypt_credential_bundle encrypt encryption_key codes ◌=ₜ◌
bundle-encrypted = refl

bundle-keys : keys_of bundle ≡ credential_keys
unfolding credential_keys
bundle-keys = refl

decrypt_credential_bundle-encrypt_credential_bundle_example :
    decrypt_credential_bundle cipher key
      (record { config_name = codes "main"; secret = stored_bundle; updated_at = 7 })
    ≡ some bundle
decrypt_credential_bundle-encrypt_credential_bundle_example =
    decrypt_credential_bundle-encrypt_credential_bundle cipher key (codes "main") bundle [] 7
      bundle-keys (reversible []) refl bundle-encrypted
