-- ===== src/Config/Patch/Undo.antt =====
-- The diff of `applyJSONPatch` (ui/worker/lib/config-changes.ts) takes an operation back.
use benis_phone.Common.{
  some-inj, ◌≡◌, refl, ap, sym, ◌∙◌, true, false, none, some, List, [], ◌∷◌, arith, Bool-cases,
  Option-cases, inl, inr,
}
use benis_phone.Common.Text.{Text, ◌=ₜ◌}
use benis_phone.Config.Json.{Json}
use benis_phone.Config.Pointer.{pointer_segments, is_unsafe}
use benis_phone.Config.Patch.{
  add, remove, replace, Operation, DiffItem, ok, >>=-ok, dash, add_in, replace_in, remove_in,
  edit_at, is_known, last_of, apply_root, apply_below, apply_segments, apply_operation,
}
use benis_phone.Config.Patch.Edits.{ok-inj, edit_at-undo, replace_in-undo, add_in-undo}

apply_operation-segments :
    (o : Operation) (segments : List Text) (j : Json)
    → is_known o.op ≡ true
    → pointer_segments o.path ≡ some segments
    → is_unsafe segments ≡ false
    → apply_operation o j ≡ apply_segments o segments j
unfolding apply_operation
apply_operation-segments o segments j k q n = rw (k, apply_operation) (rw q (rw n refl))

apply_operation-ok :
    (o : Operation) (j : Json) (r : Json × DiffItem)
    → apply_operation o j ≡ ok r
    → (is_known o.op ≡ true)
      × ((segments : List Text) × (pointer_segments o.path ≡ some segments)
          × (is_unsafe segments ≡ false)
          × (apply_segments o segments j ≡ ok r))
unfolding apply_operation
apply_operation-ok o j r h = elim (Bool-cases (is_known o.op)) [
  | inr n ↦ absurd (ground arith)
  | inl k ↦ elim (Option-cases (pointer_segments o.path)) [
    | inl n ↦ absurd (ground arith)
    | inr (segments, q) ↦ elim (Bool-cases (is_unsafe segments)) [
      | inl t ↦ absurd (ground arith)
      | inr n ↦ (k, (segments, q, n, sym (apply_operation-segments o segments j k q n) ∙ h))
    ]
  ]
]

-- The operations, at the segments of a path.
pub apply_below-replace_undo :
    (p : Text) (path : List Text) (key : Text) (v w j : Json) (r : Json × DiffItem)
    → apply_below (record { op = replace; path = p; value = some v }) path key j ≡ ok r
    → r.1.before ≡ some w
    → (back : DiffItem) × (apply_below
          (record { op = replace; path = p; value = some w })
          path
          key
          r.0
        ≡ ok (j, back))
      × (back.before ≡ some v)
unfolding apply_below
apply_below-replace_undo p path key v w j r h hb =
    let (e, he, hr) = >>=-ok (edit_at path key (λ k. replace_in k v) j) _ h in
    let same = ok-inj hr in
    let undo =
      edit_at-undo path key (λ k. replace_in k v) (λ k. replace_in k w) (some w) (some v)
        (replace_in-undo key v w) j e he (ap (λ r. r.1.before) same ∙ hb) in
    let again = ap (edit_at path key (λ k. replace_in k w)) (ap (λ r. r.0) (sym same)) ∙ undo in
    (record { op = replace; path = p; before = some v; after = some w }, rw again refl, refl)

apply_below-add_undo :
    (p : Text) (path : List Text) (key : Text) (v j : Json) (r : Json × DiffItem)
    → (key =ₜ dash) ≡ false
    → apply_below (record { op = add; path = p; value = some v }) path key j ≡ ok r
    → r.1.before ≡ none
    → (back : DiffItem) × (apply_below (record { op = remove; path = p; value = none }) path key r.0
        ≡ ok (j, back))
      × (back.before ≡ some v)
unfolding apply_below
apply_below-add_undo p path key v j r d h hb =
    let (e, he, hr) = >>=-ok (edit_at path key (λ k. add_in k v) j) _ h in
    let same = ok-inj hr in
    let undo =
      edit_at-undo path key (λ k. add_in k v) remove_in none (some v) (λ p. add_in-undo key v p d) j
        e he (ap (λ r. r.1.before) same ∙ hb) in
    let again = ap (edit_at path key remove_in) (ap (λ r. r.0) (sym same)) ∙ undo in
    (record { op = remove; path = p; before = some v; after = none }, rw again refl, refl)

apply_segments-replace_undo :
    (p : Text) (segments : List Text) (v w j : Json) (r : Json × DiffItem)
    → apply_segments (record { op = replace; path = p; value = some v }) segments j ≡ ok r
    → r.1.before ≡ some w
    → (back : DiffItem) × (apply_segments
          (record { op = replace; path = p; value = some w })
          segments
          r.0
        ≡ ok (j, back))
      × (back.before ≡ some v)
unfolding apply_segments apply_root
apply_segments-replace_undo p [] v w j r h hb =
    let same = ok-inj h in
    let back : DiffItem = record { op = replace; path = []; before = some r.0; after = some w } in
    let was : w ≡ j = some-inj (sym hb ∙ ap (λ r. r.1.before) (sym same)) in
    (back, ap (λ x. ok (x, back)) was, ap some (ap (λ r. r.0) (sym same)))
apply_segments-replace_undo p (s ∷ ss) v w j r h hb =
    apply_below-replace_undo p (last_of s ss).0 (last_of s ss).1 v w j r h hb

-- Where a `replace` operation of a patch succeeds and its diff item names the value that was there
-- before, the `replace` that writes that value back at the same path succeeds on the document that
-- came out, restores the first document, and names in its own diff item the value that the first
-- operation wrote.
pub apply_operation-replace_undo :
    (path : Text) (v w j : Json) (r : Json × DiffItem)
    → apply_operation (record { op = replace; path = path; value = some v }) j ≡ ok r
    → r.1.before ≡ some w
    → (back : DiffItem) × (apply_operation
          (record { op = replace; path = path; value = some w })
          r.0
        ≡ ok (j, back))
      × (back.before ≡ some v)
apply_operation-replace_undo path v w j r h hb =
    let (k, (segments, q, n, a)) = apply_operation-ok _ j r h in
    let (back, c, b) = apply_segments-replace_undo path segments v w j r a hb in
    (back, apply_operation-segments _ segments r.0 refl q n ∙ c, b)

-- Where an `add` operation of a patch succeeds at a path that is not the root and whose last
-- segment is not `-`, and its diff item says that nothing was there before, the `remove` at the same
-- path succeeds on the document that came out, restores the first document, and names in its diff
-- item the value that was added.
pub apply_operation-add_undo :
    (path s : Text) (ss : List Text) (v j : Json) (r : Json × DiffItem)
    → pointer_segments path ≡ some (s ∷ ss)
    → ((last_of s ss).1 =ₜ dash) ≡ false
    → apply_operation (record { op = add; path = path; value = some v }) j ≡ ok r
    → r.1.before ≡ none
    → (back : DiffItem) × (apply_operation (record { op = remove; path = path; value = none }) r.0
        ≡ ok (j, back))
      × (back.before ≡ some v)
unfolding apply_segments
apply_operation-add_undo path s ss v j r hp d h hb =
    let (k, (segments, q, n, a)) = apply_operation-ok _ j r h in
    let same = some-inj (sym q ∙ hp) in
    let n' = ap is_unsafe (sym same) ∙ n in
    let a' =
      ap (λ ss. apply_segments (record { op = add; path = path; value = some v }) ss j) (sym same)
      ∙ a in
    let (back, c, b) = apply_below-add_undo path (last_of s ss).0 (last_of s ss).1 v j r d a' hb in
    (back, apply_operation-segments _ (s ∷ ss) r.0 refl hp n' ∙ c, b)
