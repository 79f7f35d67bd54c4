-- ===== src/Config/Secrets/Bound.antt =====
-- What is encrypted for one connection cannot be read as another's.
use benis_phone.Common.{
  ℕ, ◌≡◌, ◌≢◌, refl, sym, ◌∙◌, subst, Bool, true, ◌⊎◌, inl, inr, none, some, List, [], ◌∷◌, ◌++◌,
  arith, ltb, all, Option-cases, some-inj, and-true,
}
use mathlib.Core.List.{head-eq_of_cons-eq, tail-eq_of_cons-eq}
use benis_phone.Common.Text.{Text, codes, is_word_dash, matches}
use benis_phone.Config.Store.{EncryptedSecret, is_config_name}
use benis_phone.Config.Sip.{id_ok}
use benis_phone.Config.Secrets.{
  Cipher, aad, encryption_key, encrypt, decrypt, open_sealed, encrypt_sip_password,
  decrypt_sip_password,
}
use benis_phone.Config.Secrets.Sealed.{sealed}

abbrev pub is_ascii : Text → Bool
is_ascii = all (λ u. ltb u 128)

colon_other : (d : ℕ) → is_word_dash d ≡ true → b':' ≢ d
colon_other d h e = ground arith

-- Texts without a colon in front of one.
colon-inj :
    (s t s' t' : Text)
    → all is_word_dash s ≡ true
    → all is_word_dash t ≡ true
    → s ++ (b':' ∷ s') ≡ t ++ (b':' ∷ t')
    → (s ≡ t) × (s' ≡ t')
colon-inj [] [] s' t' h k e = (refl, tail-eq_of_cons-eq e)
colon-inj [] (d ∷ t) s' t' h k e =
    absurd (colon_other d (and-true (is_word_dash d) _ k).0 (head-eq_of_cons-eq e))
colon-inj (c ∷ s) [] s' t' h k e =
    absurd (colon_other c (and-true (is_word_dash c) _ h).0 (sym (head-eq_of_cons-eq e)))
colon-inj (c ∷ s) (d ∷ t) s' t' h k e =
    let (same, rest) =
      colon-inj s t s' t' (and-true (is_word_dash c) _ h).1 (and-true (is_word_dash d) _ k).1
        (tail-eq_of_cons-eq e) in
    (cc (head-eq_of_cons-eq e, same), rest)

prefix-inj : (p s t : Text) → p ++ s ≡ p ++ t → s ≡ t
prefix-inj [] s t e = e
prefix-inj (c ∷ p) s t e = prefix-inj p s t (tail-eq_of_cons-eq e)

all-append : (s t : Text) → is_ascii s ≡ true → is_ascii t ≡ true → is_ascii (s ++ t) ≡ true
all-append [] t h k = k
all-append (c ∷ s) t h k = ground (arith, all-append s t)

word-ascii : (s : Text) → all is_word_dash s ≡ true → is_ascii s ≡ true
word-ascii [] h = refl
word-ascii (c ∷ s) h = ground (arith, word-ascii s)

-- Two names of configurations and two ids of connections.
pub aad_inj :
    (name name' id id' : Text)
    → is_config_name name ≡ true
    → is_config_name name' ≡ true
    → aad name id ≡ aad name' id'
    → (name ≡ name') × (id ≡ id')
unfolding aad is_config_name matches
aad_inj name name' id id' h h' e =
    colon-inj name name' id id' (and-true (all is_word_dash name) _ h).0
      (and-true (all is_word_dash name') _ h').0 (prefix-inj (codes "benis-pbx:sip:v1:") _ _ e)

aad-ascii :
    (name id : Text)
    → is_config_name name ≡ true
    → all is_word_dash id ≡ true
    → is_ascii (aad name id) ≡ true
unfolding aad is_config_name matches codes
aad-ascii name id h k =
    all-append name (b':' ∷ id) (word-ascii name (and-true (all is_word_dash name) _ h).0)
      (word-ascii id k)

id_ok-word : (id : Text) → id_ok (some id) ≡ true → all is_word_dash id ≡ true
unfolding id_ok matches
id_ok-word id h = (and-true (all is_word_dash id) _ h).0

module _ (c : Cipher) where
  -- What the platform promises on two texts of additional data: AES-GCM rejects a ciphertext under
  -- additional data that is not its own.
  pub record IsAuthenticated : Type 0 where
    pub base64 : (bytes : List ℕ) → c.atob (c.btoa bytes) ≡ some bytes
    pub aes_gcm :
        (key iv cleartext : List ℕ) (a b : Text)
        → is_ascii a ≡ true
        → is_ascii b ≡ true
        → a ≢ b
        → c.unseal key iv (c.encode b) (c.seal key iv (c.encode a) cleartext) ≡ none

  decrypt-encrypt-other :
      (encoded text a b : Text) (iv : List ℕ) {s : EncryptedSecret}
      → IsAuthenticated
      → is_ascii a ≡ true
      → is_ascii b ≡ true
      → a ≢ b
      → encrypt c encoded iv a text ≡ some s
      → decrypt c encoded s b ≡ none
  unfolding encrypt decrypt open_sealed
  decrypt-encrypt-other encoded text a b iv {s} r ha hb other h =
      elim (Option-cases (encryption_key c encoded)) [
        | inl n ↦ let h' : none ≡ some s = rw (encrypt, n) at h in absurd (ground arith)
        | inr (key, e) ↦
            let fwd : encrypt c encoded iv a text ≡ some (sealed c key iv a text) =
              rw (encrypt, e) refl in
            let rejected = r.aes_gcm key iv (c.encode text) a b ha hb other in
            let back : decrypt c encoded (sealed c key iv a text) b ≡ none =
              rw (decrypt, open_sealed, r.base64, e) (rw (r.base64, rejected) refl) in
            subst (λ x. decrypt c encoded x b ≡ none) (some-inj (sym fwd ∙ h)) back
      ]

  -- A SIP password that was encrypted for one connection of one configuration is not read from a
  -- row of another connection or configuration, where the names and ids have the form that the
  -- worker accepts and AES-GCM rejects additional data that is not the ciphertext's own.
  pub decrypt_sip_password-other :
      (encoded name id password name' id' : Text) (iv : List ℕ) (now : ℕ) {s : EncryptedSecret}
      → IsAuthenticated
      → is_config_name name ≡ true
      → is_config_name name' ≡ true
      → id_ok (some id) ≡ true
      → id_ok (some id') ≡ true
      → (name ≢ name') ⊎ (id ≢ id')
      → encrypt_sip_password c encoded name id password iv ≡ some s
      → decrypt_sip_password c encoded
          (record { config_name = name'; connection_id = id'; secret = s; updated_at = now })
        ≡ none
  unfolding encrypt_sip_password decrypt_sip_password
  decrypt_sip_password-other encoded name id password name' id' iv now {s} r h h' k k' other e =
      decrypt-encrypt-other encoded password (aad name id) (aad name' id') iv r
        (aad-ascii name id h (id_ok-word id k)) (aad-ascii name' id' h' (id_ok-word id' k'))
        (λ same.
          let (n, i) = aad_inj name name' id id' h h' same in
          elim other [ inl d ↦ d n | inr d ↦ d i ])
        e
