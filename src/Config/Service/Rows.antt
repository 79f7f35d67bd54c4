-- ===== src/Config/Service/Rows.antt =====
-- The statements on the rows of the configurations keep names unique and the log complete.
use benis_phone.Common.{
  ◌≡◌, refl, ap, Bool, true, false, Option, none, some, List, [], ◌∷◌, inl, inr, arith, Bool-cases,
  All, subst,
}
use benis_phone.Common.Table.{first?, update, delete, first?-none-update, update-first?-none}
use benis_phone.Common.Text.{Text, ◌=ₜ◌, =ₜ_iff}
use benis_phone.Config.Store.{ConfigRow, ConfigChange, named}
use benis_phone.Config.Changes.Batch.{UniqueNames, is_change_of, is_logged}

pub UniqueNames-update :
    (q : ConfigRow → Bool) (f : ConfigRow → ConfigRow) (rs : List ConfigRow)
    → ((r : ConfigRow) → (f r).name ≡ r.name)
    → UniqueNames rs
    → UniqueNames (update q f rs)
unfolding update
UniqueNames-update q f [] same u = tt
UniqueNames-update q f (r ∷ rs) same (fresh, u) = (
  elim (Bool-cases (q r)) [ inl t ↦ rw (t, same r) behind | inr n ↦ rw n behind ],
  UniqueNames-update q f rs same u,
)
  where
    behind : first? (named r.name) (update q f rs) ≡ none
    behind = first?-none-update (named r.name) q f rs (λ x. ap (λ n. n =ₜ r.name) (same x)) fresh

first?-none-delete {ℓ} :
    {A : Type ℓ} (p q : A → Bool) (xs : List A) → first? p xs ≡ none → first? p (delete q xs) ≡ none
unfolding first? delete
first?-none-delete p q [] h = refl
first?-none-delete p q (x ∷ xs) h = ground (arith, first?-none-delete p q xs)

pub UniqueNames-delete :
    (q : ConfigRow → Bool) (rs : List ConfigRow) → UniqueNames rs → UniqueNames (delete q rs)
unfolding delete
UniqueNames-delete q [] u = tt
UniqueNames-delete q (r ∷ rs) (fresh, u) = elim (Bool-cases (q r)) [
  | inl t ↦ rw t (UniqueNames-delete q rs u)
  | inr n ↦ rw n (first?-none-delete (named r.name) q rs fresh, UniqueNames-delete q rs u)
]

-- An update of the one row of a name.
pub All-update-named {ℓ} :
    (P : ConfigRow → Type ℓ) (name : Text) (f : ConfigRow → ConfigRow) (rs : List ConfigRow)
    {r : ConfigRow}
    → UniqueNames rs
    → first? (named name) rs ≡ some r
    → P (f r)
    → All P rs
    → All P (update (named name) f rs)
unfolding update first?
All-update-named P name f [] u e k h = tt
All-update-named P name f (x ∷ rs) {r} (fresh, u) e k (px, h) = elim (Bool-cases (named name x)) [
  | inl t ↦
      let same : x ≡ r = ground arith in
      let gone : first? (named name) rs ≡ none =
        subst (λ n. first? (named n) rs ≡ none) ((=ₜ_iff x.name name).0 t) fresh in
      rw (t, update-first?-none (named name) f rs gone) (rw same k, h)
  | inr n ↦ rw n (px, All-update-named P name f rs {r = r} u (rw n at e) k h)
]

-- The log grows.
pub is_logged-cons :
    (c : ConfigChange) (cs : List ConfigChange) (name : Text) (last : Option Text)
    → is_logged cs name last ≡ true
    → is_logged (c ∷ cs) name last ≡ true
unfolding first?
is_logged-cons c cs name none h = refl
is_logged-cons c cs name (some id) h = ground arith

first?-delete {ℓ} :
    {A : Type ℓ} (p q : A → Bool) (xs : List A)
    → ((x : A) → p x ≡ true → q x ≡ false)
    → first? p (delete q xs) ≡ first? p xs
unfolding first? delete
first?-delete p q [] apart = refl
first?-delete p q (x ∷ xs) apart = ground (arith, first?-delete p q xs apart, apart x)

-- The changes of another configuration go.
pub is_logged-delete :
    (gone : Text) (cs : List ConfigChange) (name : Text) (last : Option Text)
    → (name =ₜ gone) ≡ false
    → is_logged cs name last ≡ true
    → is_logged (delete (λ (c : ConfigChange). c.config_name =ₜ gone) cs) name last ≡ true
is_logged-delete gone cs name none n h = refl
is_logged-delete gone cs name (some id) n h =
    rw
      (first?-delete (is_change_of id name) (λ (c : ConfigChange). c.config_name =ₜ gone) cs
        (λ c k.
          ground (arith, =ₜ_iff c.config_name name, =ₜ_iff c.config_name gone, =ₜ_iff name gone)))
      h
