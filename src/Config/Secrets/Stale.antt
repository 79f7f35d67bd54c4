-- ===== src/Config/Secrets/Stale.antt =====
-- Deleting the secrets of connections that are gone leaves those of the connections that are there.
use benis_phone.Common.{
  ◌≡◌, refl, ap, sym, ◌∙◌, Bool, true, false, not, ◌&&◌, inl, inr, Option, List, [], ◌∷◌, arith,
  Bool-cases, All,
}
use benis_phone.Common.Table.{filter, delete}
use benis_phone.Common.Text.{Text, ◌=ₜ◌, =ₜ_iff, has_text}
use benis_phone.Config.Document.{has_id}
use benis_phone.Config.Store.{SipSecretRow, Db, of_connection, list_sip_secrets, delete_sip_secret}
use benis_phone.Config.Secrets.{filter_sip_secrets, stale_sip_secrets}
use benis_phone.Config.Changes.{ids_of, delete_sip_secrets}

filter-cong {ℓ} :
    {A : Type ℓ} (p q : A → Bool) (xs : List A)
    → All (λ x. p x ≡ q x) xs
    → filter p xs ≡ filter q xs
unfolding filter
filter-cong p q [] h = refl
filter-cong p q (x ∷ xs) (e, h) = ground (arith, filter-cong p q xs h)

filter-filter {ℓ} :
    {A : Type ℓ} (p q : A → Bool) (xs : List A)
    → filter p (filter q xs) ≡ filter (λ x. q x && p x) xs
unfolding filter
filter-filter p q [] = refl
filter-filter p q (x ∷ xs) = ground (arith, filter-filter p q xs)

filter-delete {ℓ} :
    {A : Type ℓ} (p q : A → Bool) (xs : List A)
    → filter p (delete q xs) ≡ filter (λ x. p x && not (q x)) xs
unfolding filter delete
filter-delete p q [] = refl
filter-delete p q (x ∷ xs) = ground (arith, filter-delete p q xs)

All-always {ℓ κ} : {A : Type ℓ} (P : A → Type κ) → ((x : A) → P x) → (xs : List A) → All P xs
All-always P f [] = tt
All-always P f (x ∷ xs) = (f x, All-always P f xs)

abbrev not_in : List Text → SipSecretRow → Bool
not_in ids s = not (has_text ids s.connection_id)

filter-always {ℓ} : {A : Type ℓ} (xs : List A) → filter (λ x. true) xs ≡ xs
unfolding filter
filter-always [] = refl
filter-always (x ∷ xs) = ap (λ ys. x ∷ ys) (filter-always xs)

list_sip_secrets-delete_sip_secrets :
    (name : Text) (ids : List Text) (db : Db)
    → list_sip_secrets name (delete_sip_secrets name ids db)
      ≡ filter (not_in ids) (list_sip_secrets name db)
unfolding list_sip_secrets delete_sip_secrets delete_sip_secret has_text
list_sip_secrets-delete_sip_secrets name [] db = sym (filter-always (list_sip_secrets name db))
list_sip_secrets-delete_sip_secrets name (id ∷ ids) db =
    list_sip_secrets-delete_sip_secrets name ids (delete_sip_secret name id db)
    ∙ filter-filter (not_in ids) named_so (delete (of_connection name id) db.secrets)
    ∙ filter-delete (λ s. named_so s && not_in ids s) (of_connection name id) db.secrets
    ∙ filter-cong _ _ db.secrets (All-always _ (λ (s : SipSecretRow). pointwise s) db.secrets)
    ∙ sym (filter-filter (not_in (id ∷ ids)) named_so db.secrets)
  where
    named_so : SipSecretRow → Bool
    named_so s = s.config_name =ₜ name

    pointwise :
        (s : SipSecretRow)
        → ((named_so s && not_in ids s) && not (of_connection name id s))
          ≡ (named_so s && not_in (id ∷ ids) s)
    pointwise s = ground (arith, =ₜ_iff s.connection_id id, =ₜ_iff id s.connection_id)

-- The secrets of other configurations stay.
pub list_sip_secrets_of_other :
    (name n : Text) (ids : List Text) (db : Db)
    → (name =ₜ n) ≡ false
    → list_sip_secrets n (delete_sip_secrets name ids db) ≡ list_sip_secrets n db
unfolding list_sip_secrets delete_sip_secrets delete_sip_secret
list_sip_secrets_of_other name n [] db f = refl
list_sip_secrets_of_other name n (id ∷ ids) db f =
    list_sip_secrets_of_other name n ids (delete_sip_secret name id db) f
    ∙ filter-delete of_n (of_connection name id) db.secrets
    ∙ filter-cong _ of_n db.secrets (All-always _ (λ (s : SipSecretRow). pointwise s) db.secrets)
  where
    of_n : SipSecretRow → Bool
    of_n s = s.config_name =ₜ n

    pointwise : (s : SipSecretRow) → (of_n s && not (of_connection name id s)) ≡ of_n s
    pointwise s = elim (Bool-cases (s.config_name =ₜ n)) [
      | inr k ↦ rw k refl
      | inl k ↦
          let other : (s.config_name =ₜ name) ≡ false = elim (Bool-cases (s.config_name =ₜ name)) [
            | inr g ↦ g
            | inl g ↦ absurd (
                let same = sym ((=ₜ_iff s.config_name name).0 g) ∙ (=ₜ_iff s.config_name n).0 k in
                let equal = (=ₜ_iff name n).1 same in ground arith)
          ] in
          rw (k, other) refl
    ]

-- The id of a stale secret is of no connection that is there.
stale_ids :
    (ids : List (Option Text)) (t : Text) (rows : List SipSecretRow)
    → has_text (ids_of (stale_sip_secrets rows ids)) t ≡ true
    → has_id ids t ≡ false
unfolding stale_sip_secrets filter has_text
stale_ids ids t [] h = absurd (ground arith)
stale_ids ids t (s ∷ rows) h = elim (Bool-cases (has_id ids s.connection_id)) [
  | inl k ↦ stale_ids ids t rows (rw k at h)
  | inr k ↦ elim (Bool-cases (s.connection_id =ₜ t)) [
    | inl e ↦ rw (sym ((=ₜ_iff s.connection_id t).0 e)) k
    | inr e ↦ stale_ids ids t rows (rw (k, e) at h)
  ]
]

-- A secret among those whose stale ones are all in a list is in it or of a connection.
not_in-has_id :
    (ids : List (Option Text)) (gone : List Text) (rows : List SipSecretRow)
    → ((t : Text)
        → has_text (ids_of (stale_sip_secrets rows ids)) t ≡ true
        → has_text gone t ≡ true)
    → ((t : Text) → has_text gone t ≡ true → has_id ids t ≡ false)
    → All (λ (s : SipSecretRow). not_in gone s ≡ has_id ids s.connection_id) rows
unfolding stale_sip_secrets filter has_text
not_in-has_id ids gone [] f g = tt
not_in-has_id ids gone (s ∷ rows) f g = (
  elim (Bool-cases (has_id ids s.connection_id)) [
    | inl k ↦ ground (arith, g s.connection_id)
    | inr k ↦
        let here : has_text (ids_of (stale_sip_secrets (s ∷ rows) ids)) s.connection_id ≡ true =
          rw (k, (=ₜ_iff s.connection_id s.connection_id).1 refl) refl in
        let there = f s.connection_id here in rw (k, there) refl
  ],
  not_in-has_id ids gone rows (λ t h. f t (weaken t h)) g,
)
  where
    weaken :
        (t : Text)
        → has_text (ids_of (stale_sip_secrets rows ids)) t ≡ true
        → has_text (ids_of (stale_sip_secrets (s ∷ rows) ids)) t ≡ true
    weaken t h = ground arith

-- What is left of a configuration's secrets.
pub list_sip_secrets-delete_stale :
    (name : Text) (ids : List (Option Text)) (db : Db)
    → list_sip_secrets name
        (delete_sip_secrets name (ids_of (stale_sip_secrets (list_sip_secrets name db) ids)) db)
      ≡ filter_sip_secrets (list_sip_secrets name db) ids
unfolding filter_sip_secrets
list_sip_secrets-delete_stale name ids db =
    let rows = list_sip_secrets name db in
    let gone = ids_of (stale_sip_secrets rows ids) in
    list_sip_secrets-delete_sip_secrets name gone db
    ∙ filter-cong (not_in gone) (λ (s : SipSecretRow). has_id ids s.connection_id) rows
        (not_in-has_id ids gone rows (λ t h. h) (λ t h. stale_ids ids t rows h))
