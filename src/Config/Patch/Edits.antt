-- ===== src/Config/Patch/Edits.antt =====
-- What an operation of a patch does to the value at its path.
use benis_phone.Common.{
  ℕ, suc, ◌≡◌, refl, ap, sym, ◌∙◌, true, false, ◌&&◌, Option, none, some, List, [], ◌∷◌, arith,
  Bool-cases, Option-cases, inl, inr, is_none, subst,
}
use benis_phone.Common.Text.{Text, ◌=ₜ◌}
use benis_phone.Config.Json.{
  Json, null, bool, num, str, arr, obj, Items, Members, size, get_item, set_item, insert_item,
  remove_item, get_member, set_member, remove_member,
}
use benis_phone.Config.Json.Laws.{
  size-set_item, get_item-set_item, set_item-get_item, set_item-set_item, size-insert_item,
  get_item-insert_item, remove_item-insert_item, get_member-set_member, set_member-get_member,
  set_member-set_member, remove_member-set_member,
}
use benis_phone.Config.Pointer.{array_offset, array_offset-lt, array_offset-le}
use benis_phone.Config.Patch.{
  Result, ok, err, or_err, >>=-ok, Edit, dash, inherited, add_in, replace_in, remove_in, child,
  put_child, edit_at,
}

child-put_child : (s : Text) (c c' j : Json) → child s j ≡ ok c → child s (put_child s c' j) ≡ ok c'
unfolding child put_child
child-put_child s c c' (arr xs) h = elim (Option-cases (array_offset s (size xs) false)) [
  | inl n ↦ absurd (ground arith)
  | inr (i, e) ↦
      rw (e, child)
        (rw (size-set_item xs i c')
          (rw e (ap (or_err _) (get_item-set_item xs i c' (array_offset-lt s (size xs) e)))))
]
child-put_child s c c' (obj ms) h = ap (or_err _) (get_member-set_member s c' ms)
child-put_child s c c' null h = absurd (cc)
child-put_child s c c' (bool b) h = absurd (cc)
child-put_child s c c' (num b) h = absurd (cc)
child-put_child s c c' (str b) h = absurd (cc)

-- The child of an array or an object is an item or a member.
child-arr :
    (s : Text) (xs : Items) (i : ℕ) (c : Json)
    → array_offset s (size xs) false ≡ some i
    → child s (arr xs) ≡ ok c
    → get_item xs i ≡ some c
unfolding child
child-arr s xs i c e h = elim (Option-cases (get_item xs i)) [
  | inl n ↦ absurd (ground arith)
  | inr (x, g) ↦ ground arith
]

child-obj :
    (s : Text) (ms : Members) (c : Json) → child s (obj ms) ≡ ok c → get_member s ms ≡ some c
unfolding child
child-obj s ms c h = elim (Option-cases (get_member s ms)) [
  | inl n ↦ absurd (ground arith)
  | inr (x, g) ↦ ground arith
]

put_child-child : (s : Text) (c j : Json) → child s j ≡ ok c → put_child s c j ≡ j
unfolding put_child child
put_child-child s c (arr xs) h = elim (Option-cases (array_offset s (size xs) false)) [
  | inl n ↦ rw (n, put_child) refl
  | inr (i, e) ↦ rw (e, put_child) (ap arr (set_item-get_item xs i c (child-arr s xs i c e h)))
]
put_child-child s c (obj ms) h = ap obj (set_member-get_member s c ms (child-obj s ms c h))
put_child-child s c null h = refl
put_child-child s c (bool b) h = refl
put_child-child s c (num b) h = refl
put_child-child s c (str b) h = refl

put_child-put_child :
    (s : Text) (c c' j : Json) → put_child s c' (put_child s c j) ≡ put_child s c' j
unfolding put_child
put_child-put_child s c c' (arr xs) = elim (Option-cases (array_offset s (size xs) false)) [
  | inl n ↦ rw (n, put_child, n) refl
  | inr (i, e) ↦ rw (e, put_child, size-set_item xs i c, e) (ap arr (set_item-set_item xs i c c'))
]
put_child-put_child s c c' (obj ms) = ap obj (set_member-set_member s c c' ms)
put_child-put_child s c c' null = refl
put_child-put_child s c c' (bool b) = refl
put_child-put_child s c c' (num b) = refl
put_child-put_child s c c' (str b) = refl

abbrev value_or {ℓ} : {A : Type ℓ} → A → Result A → A
value_or d (ok x) = x
value_or d (err e) = d

pub ok-inj {ℓ} : {A : Type ℓ} {a b : A} → ok a ≡ ok b → a ≡ b
ok-inj {a = a} h = ap (λ r. value_or a r) h

-- One step up the path: the child is written where it was.
edit_at-up :
    (s : Text) (path : List Text) (key : Text) (g : Text → Json → Result Edit) (w : Option Json)
    (c c' j : Json)
    → child s j ≡ ok c
    → edit_at path key g c' ≡ ok (c, w)
    → edit_at (s ∷ path) key g (put_child s c' j) ≡ ok (j, w)
unfolding edit_at
edit_at-up s path key g w c c' j hc again =
    rw (child-put_child s c c' j hc)
      (rw again (rw (put_child-put_child s c' c j) (rw (put_child-child s c j hc) refl)))

-- An edit of a parent that another edit undoes is undone along the whole path.
pub edit_at-undo :
    (path : List Text) (key : Text) (f g : Text → Json → Result Edit) (b : Option Json)
    (w : Option Json)
    → ((p : Json) (e : Edit) → f key p ≡ ok e → e.1 ≡ b → g key e.0 ≡ ok (p, w))
    → (j : Json) (r : Edit) → edit_at path key f j ≡ ok r
    → r.1 ≡ b
    → edit_at path key g r.0 ≡ ok (j, w)
unfolding edit_at
edit_at-undo [] key f g b w undo j r h hb = undo j r h hb
edit_at-undo (s ∷ path) key f g b w undo j r h hb =
    let (c, hc, h') = >>=-ok (child s j) _ h in
    let (e, he, hr) = >>=-ok (edit_at path key f c) _ h' in
    let same = ok-inj hr in
    subst (λ r. edit_at (s ∷ path) key g r.0 ≡ ok (j, w)) same
      (edit_at-up s path key g w c e.0 j hc
        (edit_at-undo path key f g b w undo c e he (ap (λ r. r.1) same ∙ hb)))

-- What a replacement that succeeds did.
replace_in-arr :
    (k : Text) (v : Json) (xs : Items) (i : ℕ)
    → array_offset k (size xs) false ≡ some i
    → replace_in k v (arr xs) ≡ ok (arr (set_item xs i v), get_item xs i)
unfolding replace_in
replace_in-arr k v xs i q = rw (q, replace_in) refl

replace_in-obj :
    (k : Text) (v w : Json) (ms : Members)
    → get_member k ms ≡ some w
    → replace_in k v (obj ms) ≡ ok (obj (set_member k v ms), some w)
unfolding replace_in
replace_in-obj k v w ms q = rw (q, replace_in) refl

pub replace_in-undo :
    (k : Text) (v w p : Json) (e : Edit)
    → replace_in k v p ≡ ok e
    → e.1 ≡ some w
    → replace_in k w e.0 ≡ ok (p, some v)
unfolding replace_in
replace_in-undo k v w (arr xs) e h hb = elim (Option-cases (array_offset k (size xs) false)) [
  | inl n ↦ absurd (ground arith)
  | inr (i, q) ↦
      let same = ok-inj (sym (replace_in-arr k v xs i q) ∙ h) in
      let was = ap (λ r. r.1) same ∙ hb in
      subst (λ r. replace_in k w r.0 ≡ ok (arr xs, some v)) same
        (replace_in-arr k w (set_item xs i v) i
            (ap (λ n. array_offset k n false) (size-set_item xs i v) ∙ q)
          ∙ rw
              (
                set_item-set_item xs i v w,
                set_item-get_item xs i w was,
                get_item-set_item xs i v (array_offset-lt k (size xs) q),
              )
              refl)
]
replace_in-undo k v w (obj ms) e h hb = elim (Option-cases (get_member k ms)) [
  | inl n ↦ absurd (ground arith)
  | inr (u, q) ↦
      let same = ok-inj (sym (replace_in-obj k v u ms q) ∙ h) in
      let was = q ∙ ap (λ r. r.1) same ∙ hb in
      subst (λ r. replace_in k w r.0 ≡ ok (obj ms, some v)) same
        (replace_in-obj k w v (set_member k v ms) (get_member-set_member k v ms)
          ∙ rw (set_member-set_member k v w ms, set_member-get_member k w ms was) refl)
]
replace_in-undo k v w null e h hb = absurd (cc)
replace_in-undo k v w (bool b) e h hb = absurd (cc)
replace_in-undo k v w (num b) e h hb = absurd (cc)
replace_in-undo k v w (str b) e h hb = absurd (cc)

-- Where nothing was, an addition that succeeds did this.
add_in-arr :
    (k : Text) (v : Json) (xs : Items) (i : ℕ)
    → (k =ₜ dash) ≡ false
    → array_offset k (size xs) true ≡ some i
    → add_in k v (arr xs) ≡ ok (arr (insert_item xs i v), get_item xs i)
unfolding add_in
add_in-arr k v xs i d q = rw (d, add_in) (rw q refl)

array_offset-room :
    (k : Text) (n i : ℕ) → array_offset k n true ≡ some i → array_offset k (suc n) false ≡ some i
unfolding array_offset
array_offset-room k n i h = ground arith

remove_in-arr :
    (k : Text) (xs : Items) (i : ℕ)
    → array_offset k (size xs) false ≡ some i
    → remove_in k (arr xs) ≡ ok (arr (remove_item xs i), get_item xs i)
unfolding remove_in
remove_in-arr k xs i q = rw (q, remove_in) refl

remove_in-obj :
    (k : Text) (w : Json) (ms : Members)
    → get_member k ms ≡ some w
    → remove_in k (obj ms) ≡ ok (obj (remove_member k ms), some w)
unfolding remove_in
remove_in-obj k w ms q = rw (q, remove_in) refl

pub add_in-undo :
    (k : Text) (v p : Json)
    → (k =ₜ dash) ≡ false
    → (e : Edit) → add_in k v p ≡ ok e
    → e.1 ≡ none
    → remove_in k e.0 ≡ ok (p, some v)
unfolding add_in
add_in-undo k v (arr xs) d e h hb = elim (Option-cases (array_offset k (size xs) true)) [
  | inl n ↦ absurd (ground arith)
  | inr (i, q) ↦
      let same = ok-inj (sym (add_in-arr k v xs i d q) ∙ h) in
      let le = array_offset-le k (size xs) true q in
      subst (λ r. remove_in k r.0 ≡ ok (arr xs, some v)) same
        (remove_in-arr k (insert_item xs i v) i (
            ap (λ n. array_offset k n false) (size-insert_item xs i v)
            ∙ array_offset-room k (size xs) i q)
          ∙ rw (remove_item-insert_item xs i v le, get_item-insert_item xs i v le) refl)
]
add_in-undo k v (obj ms) d e h hb = elim (Bool-cases (is_none (get_member k ms) && inherited k)) [
  | inl t ↦ absurd (ground arith)
  | inr n ↦
      let fwd : add_in k v (obj ms) ≡ ok (obj (set_member k v ms), get_member k ms) =
        rw (n, add_in) refl in
      let same = ok-inj (sym fwd ∙ h) in
      subst (λ r. remove_in k r.0 ≡ ok (obj ms, some v)) same
        (remove_in-obj k v (set_member k v ms) (get_member-set_member k v ms)
          ∙ rw (remove_member-set_member k v ms (ap (λ r. r.1) same ∙ hb)) refl)
]
add_in-undo k v null d e h hb = absurd (cc)
add_in-undo k v (bool b) d e h hb = absurd (cc)
add_in-undo k v (num b) d e h hb = absurd (cc)
add_in-undo k v (str b) d e h hb = absurd (cc)
