-- ===== src/Common/Spent.antt =====
-- Rows that can be used once: a key that is in the table and has no row left to use.
use benis_phone.Common.Tests.{Bool-cases, is_some}
use benis_phone.Common.Table.{first?, update, count, count-update-le}
use Prim.Native.Nat.{◌<◌}
use mathlib.Core.Path.{◌≡◌, refl}
use mathlib.Core.Bool.{Bool, true, false, ◌&&◌}
use mathlib.Core.Option.{some}
use mathlib.Core.Logic.{inl, inr}
use mathlib.Core.List.{List, [], ◌∷◌}
use native.Mathlib.Omega.{arith}

-- `k` tells the rows of the key, `l` those that can still be used.
module _ {ℓ} {A : Type ℓ} (k l : A → Bool) where
  abbrev pub live : A → Bool
  live x = k x && l x

  abbrev pub IsSpent : List A → Type 0
  IsSpent xs = (count live xs ≡ 0) × (is_some (first? k xs) ≡ true)

  is_some-first?-update :
      (p : A → Bool) (f : A → A) (xs : List A)
      → ((x : A) → k (f x) ≡ k x)
      → is_some (first? k (update p f xs)) ≡ is_some (first? k xs)
  unfolding first? update
  is_some-first?-update p f [] same = refl
  is_some-first?-update p f (x ∷ xs) same =
      ground (arith, is_some-first?-update p f xs same, same x)

  pub update-IsSpent :
      (p : A → Bool) (f : A → A) (xs : List A)
      → ((x : A) → k (f x) ≡ k x)
      → ((x : A) → l (f x) ≡ true → l x ≡ true)
      → IsSpent xs
      → IsSpent (update p f xs)
  update-IsSpent p f xs same keep (none_left, there) = (
    omega (arith, none_left, count-update-le live p f xs (λ x h. ground (arith, same x, keep x))),
    rw (is_some-first?-update p f xs same) there,
  )

  count-update-live :
      (f : A → A) (xs : List A) → ((x : A) → l (f x) ≡ false) → count live (update live f xs) ≡ 0
  unfolding count update
  count-update-live f [] used = refl
  count-update-live f (x ∷ xs) used = ground (arith, count-update-live f xs used, used x)

  is_some-first?-count : (xs : List A) → 0 < count live xs → is_some (first? k xs) ≡ true
  unfolding first? count
  is_some-first?-count [] h = absurd (omega arith)
  is_some-first?-count (x ∷ xs) h = ground (arith, is_some-first?-count xs)

  pub consume-IsSpent :
      (f : A → A) (xs : List A)
      → ((x : A) → k (f x) ≡ k x)
      → ((x : A) → l (f x) ≡ false)
      → 0 < count live xs
      → IsSpent (update live f xs)
  consume-IsSpent f xs same used h = (
    count-update-live f xs used,
    rw (is_some-first?-update live f xs same) (is_some-first?-count xs h),
  )

  pub cons-IsSpent : (x : A) (xs : List A) → k x ≡ false → IsSpent xs → IsSpent (x ∷ xs)
  unfolding first? count
  cons-IsSpent x xs other (none_left, there) = (ground arith, rw other there)

  pub IsSpent-first? : (xs : List A) {x : A} → IsSpent xs → first? k xs ≡ some x → l x ≡ false
  unfolding first? count
  IsSpent-first? [] h e = absurd (ground arith)
  IsSpent-first? (y ∷ xs) {x} (none_left, there) e = elim (Bool-cases (k y)) [
    | inl t ↦ ground arith
    | inr n ↦ IsSpent-first? xs {x = x} (ground arith, ground arith) (rw n at e)
  ]
