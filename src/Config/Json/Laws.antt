-- ===== src/Config/Json/Laws.antt =====
-- Reading and writing arrays and objects, and `deepEqual` on a value with distinct keys.
use benis_phone.Common.{
  ℕ, zero, suc, ◌<◌, ◌≤◌, ◌≡◌, refl, ap, true, false, none, some, arith, Bool-cases, inl, inr,
}
use benis_phone.Common.Text.{Text, ◌=ₜ◌, =ₜ_iff}
use benis_phone.Config.Json.{
  Json, Items, nil, cons, Members, end, member, size, get_item, set_item, insert_item, remove_item,
  get_member, set_member, remove_member,
}

pub =ₜ-refl : (t : Text) → (t =ₜ t) ≡ true
=ₜ-refl t = (=ₜ_iff t t).1 refl

pub size-set_item : (xs : Items) (i : ℕ) (v : Json) → size (set_item xs i v) ≡ size xs
unfolding size set_item
size-set_item nil i v = refl
size-set_item (cons x xs) zero v = refl
size-set_item (cons x xs) (suc i) v = ap suc (size-set_item xs i v)

pub get_item-set_item :
    (xs : Items) (i : ℕ) (v : Json) → i < size xs → get_item (set_item xs i v) i ≡ some v
unfolding size set_item get_item
get_item-set_item nil i v h = absurd (omega arith)
get_item-set_item (cons x xs) zero v h = refl
get_item-set_item (cons x xs) (suc i) v h = get_item-set_item xs i v (omega arith)

pub set_item-get_item :
    (xs : Items) (i : ℕ) (v : Json) → get_item xs i ≡ some v → set_item xs i v ≡ xs
unfolding set_item get_item
set_item-get_item nil i v h = refl
set_item-get_item (cons x xs) zero v h = ground arith
set_item-get_item (cons x xs) (suc i) v h = ap (cons x) (set_item-get_item xs i v h)

pub set_item-set_item :
    (xs : Items) (i : ℕ) (v w : Json) → set_item (set_item xs i v) i w ≡ set_item xs i w
unfolding set_item
set_item-set_item nil i v w = refl
set_item-set_item (cons x xs) zero v w = refl
set_item-set_item (cons x xs) (suc i) v w = ap (cons x) (set_item-set_item xs i v w)

pub get_item-none : (xs : Items) (i : ℕ) → get_item xs i ≡ none → size xs ≤ i
unfolding size get_item
get_item-none nil i h = omega arith
get_item-none (cons x xs) zero h = absurd (cc)
get_item-none (cons x xs) (suc i) h = omega (arith, get_item-none xs i h)

pub size-insert_item : (xs : Items) (i : ℕ) (v : Json) → size (insert_item xs i v) ≡ suc (size xs)
unfolding size insert_item
size-insert_item xs zero v = refl
size-insert_item nil (suc i) v = refl
size-insert_item (cons x xs) (suc i) v = ap suc (size-insert_item xs i v)

pub get_item-insert_item :
    (xs : Items) (i : ℕ) (v : Json) → i ≤ size xs → get_item (insert_item xs i v) i ≡ some v
unfolding size insert_item get_item
get_item-insert_item xs zero v h = refl
get_item-insert_item nil (suc i) v h = absurd (omega arith)
get_item-insert_item (cons x xs) (suc i) v h = get_item-insert_item xs i v (omega arith)

pub remove_item-insert_item :
    (xs : Items) (i : ℕ) (v : Json) → i ≤ size xs → remove_item (insert_item xs i v) i ≡ xs
unfolding size insert_item remove_item
remove_item-insert_item xs zero v h = refl
remove_item-insert_item nil (suc i) v h = absurd (omega arith)
remove_item-insert_item (cons x xs) (suc i) v h =
    ap (cons x) (remove_item-insert_item xs i v (omega arith))

pub get_member-set_member :
    (k : Text) (v : Json) (ms : Members) → get_member k (set_member k v ms) ≡ some v
unfolding get_member set_member
get_member-set_member k v end = rw (=ₜ-refl k)
get_member-set_member k v (member j w ms) = elim (Bool-cases (j =ₜ k)) [
  | inl t ↦ rw (t, get_member) (rw t)
  | inr n ↦ rw (n, get_member) (rw n (get_member-set_member k v ms))
]

pub get_member-set_member_ne :
    (k j : Text) (v : Json) (ms : Members)
    → (k =ₜ j) ≡ false
    → get_member j (set_member k v ms) ≡ get_member j ms
unfolding get_member set_member
get_member-set_member_ne k j v end h = rw h
get_member-set_member_ne k j v (member i w ms) h =
    ground (arith, get_member-set_member_ne k j v ms h, =ₜ_iff i k, =ₜ_iff i j, =ₜ_iff k j)

pub set_member-get_member :
    (k : Text) (v : Json) (ms : Members) → get_member k ms ≡ some v → set_member k v ms ≡ ms
unfolding get_member set_member
set_member-get_member k v end h = absurd (cc)
set_member-get_member k v (member j w ms) h = ground (arith, set_member-get_member k v ms)

pub set_member-set_member :
    (k : Text) (v w : Json) (ms : Members) → set_member k w (set_member k v ms) ≡ set_member k w ms
unfolding set_member
set_member-set_member k v w end = rw (=ₜ-refl k)
set_member-set_member k v w (member j u ms) = elim (Bool-cases (j =ₜ k)) [
  | inl t ↦ rw (t, set_member) (rw t)
  | inr n ↦ rw (n, set_member) (rw n (ap (member j u) (set_member-set_member k v w ms)))
]

pub remove_member-set_member :
    (k : Text) (v : Json) (ms : Members)
    → get_member k ms ≡ none
    → remove_member k (set_member k v ms) ≡ ms
unfolding get_member set_member remove_member
remove_member-set_member k v end h = rw (=ₜ-refl k)
remove_member-set_member k v (member j u ms) h = elim (Bool-cases (j =ₜ k)) [
  | inl t ↦ absurd (ground arith)
  | inr n ↦
      rw (n, remove_member) (rw n (ap (member j u) (remove_member-set_member k v ms (rw n at h))))
]
