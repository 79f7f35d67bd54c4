-- ===== src/Common/Table.antt =====
-- Tables of the database as lists of rows: what `SELECT … .first()`, `UPDATE … WHERE`,
-- `DELETE … WHERE` and `count(*)` do.
use benis_phone.Common.Tests.{if◌then◌else◌, Bool-cases, is_some, ◌=ₛ◌}
use benis_phone.Common.Lists.{All}
use Prim.Native.Nat.{ℕ, ◌+◌, ◌≤◌}
use Prim.Native.String.{String}
use mathlib.Core.Path.{◌≡◌, refl, ap}
use mathlib.Core.Logic.{inl, inr}
use mathlib.Core.Bool.{Bool, true, false}
use mathlib.Core.Option.{Option, none, some}
use mathlib.Core.List.{List, [], ◌∷◌}
use native.Mathlib.Omega.{arith}

module _ {ℓ} {A : Type ℓ} where
  unfoldable pub first? : (A → Bool) → List A → Option A
  first? p [] = none
  first? p (x ∷ xs) = if p x then some x else first? p xs

  unfoldable pub update : (A → Bool) → (A → A) → List A → List A
  update p f [] = []
  update p f (x ∷ xs) = (if p x then f x else x) ∷ update p f xs

  unfoldable pub delete : (A → Bool) → List A → List A
  delete p [] = []
  delete p (x ∷ xs) = let rest = delete p xs in if p x then rest else x ∷ rest

  unfoldable pub count : (A → Bool) → List A → ℕ
  count p [] = 0
  count p (x ∷ xs) = (if p x then 1 else 0) + count p xs

  pub first?-test : (p : A → Bool) (xs : List A) {x : A} → first? p xs ≡ some x → p x ≡ true
  unfolding first?
  first?-test p [] h = ground arith
  first?-test p (y ∷ xs) {x} h = ground (arith, first?-test p xs {x = x})

module _ {ℓ κ} {A : Type ℓ} (P : A → Type κ) where
  pub All-first? : (p : A → Bool) (xs : List A) {x : A} → All P xs → first? p xs ≡ some x → P x
  unfolding first?
  All-first? p [] h e = absurd (ground arith)
  All-first? p (y ∷ xs) {x} (k, h) e = elim (Bool-cases (p y)) [
    | inl t ↦ let same : y ≡ x = ground arith in rw same at k
    | inr f ↦ All-first? p xs h (rw f at e)
  ]

  pub All-update :
      (p : A → Bool) (f : A → A) (xs : List A)
      → ((x : A) → P x → P (f x))
      → All P xs
      → All P (update p f xs)
  unfolding update
  All-update p f [] keep h = tt
  All-update p f (x ∷ xs) keep (k, h) = elim (Bool-cases (p x)) [
    | inl t ↦ rw t (keep x k, All-update p f xs keep h)
    | inr n ↦ rw n (k, All-update p f xs keep h)
  ]

  pub All-delete : (p : A → Bool) (xs : List A) → All P xs → All P (delete p xs)
  unfolding delete
  All-delete p [] h = tt
  All-delete p (x ∷ xs) (k, h) = elim (Bool-cases (p x)) [
    | inl t ↦ rw t (All-delete p xs h)
    | inr n ↦ rw n (k, All-delete p xs h)
  ]

module _ {ℓ} {A : Type ℓ} where
  pub count-update-le :
      (q p : A → Bool) (f : A → A) (xs : List A)
      → ((x : A) → q (f x) ≡ true → q x ≡ true)
      → count q (update p f xs) ≤ count q xs
  unfolding count update
  count-update-le q p f [] keep = omega arith
  count-update-le q p f (x ∷ xs) keep = ground (arith, count-update-le q p f xs keep, keep x)

  pub first?-none-update :
      (q p : A → Bool) (f : A → A) (xs : List A)
      → ((x : A) → q (f x) ≡ q x)
      → first? q xs ≡ none
      → first? q (update p f xs) ≡ none
  unfolding first? update
  first?-none-update q p f [] same h = refl
  first?-none-update q p f (x ∷ xs) same h =
      ground (arith, first?-none-update q p f xs same, same x)

  pub count-first?-none : (q : A → Bool) (xs : List A) → first? q xs ≡ none → count q xs ≡ 0
  unfolding first? count
  count-first?-none q [] h = refl
  count-first?-none q (x ∷ xs) h = ground (arith, count-first?-none q xs)

  -- An update of no row changes nothing.
  pub update-first?-none :
      (p : A → Bool) (f : A → A) (xs : List A) → first? p xs ≡ none → update p f xs ≡ xs
  unfolding first? update
  update-first?-none p f [] h = refl
  update-first?-none p f (x ∷ xs) h = ground (arith, update-first?-none p f xs)

-- A primary key.
module _ {ℓ} {A : Type ℓ} (key : A → String) where
  abbrev pub Unique : List A → Type ℓ
  Unique [] = Unit
  Unique (x ∷ xs) = (first? (λ y. key y =ₛ key x) xs ≡ none) × Unique xs

  pub Unique-update :
      (p : A → Bool) (f : A → A) (xs : List A)
      → ((x : A) → key (f x) ≡ key x)
      → Unique xs
      → Unique (update p f xs)
  unfolding update
  Unique-update p f [] same h = tt
  Unique-update p f (x ∷ xs) same (fresh, h) = (head (p x), Unique-update p f xs same h)
    where
      head : (b : Bool) → first? (λ y. key y =ₛ key (if b then f x else x)) (update p f xs) ≡ none
      head true = rw (same x) (
          first?-none-update (λ y. key y =ₛ key x) p f xs (λ y. ap (λ k. k =ₛ key x) (same y))
            fresh)
      head false =
          first?-none-update (λ y. key y =ₛ key x) p f xs (λ y. ap (λ k. k =ₛ key x) (same y)) fresh

pub first?-none_mono {ℓ} :
    {A : Type ℓ} (p q : A → Bool) (xs : List A)
    → ((x : A) → q x ≡ true → p x ≡ true)
    → first? p xs ≡ none
    → first? q xs ≡ none
unfolding first?
first?-none_mono p q [] le h = refl
first?-none_mono p q (x ∷ xs) le h = ground (arith, first?-none_mono p q xs le, le x)

-- `rows.filter(p)` and `SELECT … WHERE`.
unfoldable pub filter {ℓ} : {A : Type ℓ} → (A → Bool) → List A → List A
filter p [] = []
filter p (x ∷ xs) = let rest = filter p xs in if p x then x ∷ rest else rest

-- A lookup behind an update that keeps the test.
pub first?-update {ℓ} :
    {A : Type ℓ} (q p : A → Bool) (f : A → A) (xs : List A)
    → ((x : A) → q (f x) ≡ q x)
    → first? q (update p f xs)
      ≡ elim (first? q xs) [ none ↦ none | some x ↦ some (if p x then f x else x) ]
unfolding first? update
first?-update q p f [] same = refl
first?-update q p f (x ∷ xs) same = ground (arith, first?-update q p f xs same, same x)

-- A lookup that finds what an update wrote.
pub first?-update_hit {ℓ} :
    {A : Type ℓ} (q p : A → Bool) (f : A → A) (xs : List A)
    → ((x : A) → p x ≡ true → q (f x) ≡ true)
    → {x : A} → first? p xs ≡ some x
    → is_some (first? q (update p f xs)) ≡ true
unfolding first? update
first?-update_hit q p f [] hits e = absurd (ground arith)
first?-update_hit q p f (y ∷ xs) hits {x} e = elim (Bool-cases (p y)) [
  | inl t ↦ ground (arith, hits y t)
  | inr n ↦ let rest = first?-update_hit q p f xs hits {x = x} (rw n at e) in ground arith
]
