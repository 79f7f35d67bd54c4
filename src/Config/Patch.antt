-- ===== src/Config/Patch.antt =====
-- `applyJSONPatch` of ui/worker/lib/config-changes.ts. The document is cloned before it is changed
-- in place, so the model rebuilds it instead; an exception is an error value.
pub mod Edits
pub mod Undo
use benis_phone.Common.{
  ℕ, zero, suc, ◌+◌, ◌≡◌, refl, String, Bool, true, false, not, ◌&&◌, ◌||◌, Option, none, some,
  List, [], ◌∷◌, ◌++◌, arith, ◌==◌, leb, ltb, if◌then◌else◌, any, is_some, is_none, length,
}
use benis_phone.Common.Text.{Text, codes, ◌=ₜ◌, has_text}
use benis_phone.Config.Json.{
  Json, null, bool, num, str, arr, obj, Items, nil, cons, Members, end, member, size, get_item,
  set_item, insert_item, remove_item, push_item, get_member, set_member, remove_member, deep_equal,
}
use benis_phone.Config.Pointer.{pointer_segments, is_unsafe, array_offset}

pub data Op : Type 0 where
  add remove replace test unknown : Op

-- `value` is `none` where the operation has no such member.
pub record Operation : Type 0 where
  pub op : Op
  pub path : Text
  pub value : Option Json

pub record DiffItem : Type 0 where
  pub op : Op
  pub path : Text
  pub before : Option Json
  pub after : Option Json

pub data Error : Type 0 where
  empty_patch too_many too_large unsupported invalid_pointer unsafe_path : Error
  root_removal test_failed missing_parent bad_parent missing_value bad_index no_value : Error
  -- `JSON.parse` of the `undefined` that `JSON.stringify` gives for a function.
  not_json : Error

pub data Result {ℓ} (A : Type ℓ) : Type ℓ where
  ok : A → Result A
  err : Error → Result A

infixl 5 ◌>>=◌
abbrev pub ◌>>=◌ {ℓ κ} : {A : Type ℓ} {B : Type κ} → Result A → (A → Result B) → Result B
ok a >>= f = f a
err e >>= f = err e

-- A chain that succeeds has a first step that does.
pub >>=-ok {ℓ κ} :
    {A : Type ℓ} {B : Type κ} (r : Result A) (f : A → Result B) {b : B}
    → (r >>= f) ≡ ok b
    → (a : A) × (r ≡ ok a) × (f a ≡ ok b)
>>=-ok (ok a) f h = (a, refl, h)
>>=-ok (err e) f h = absurd (cc)

abbrev pub or_err {ℓ} : {A : Type ℓ} → Error → Option A → Result A
or_err e none = err e
or_err e (some a) = ok a

-- The members that every object inherits, all of them functions. A path with one of the three names
-- that `UNSAFE_SEGMENTS` lists does not come so far.
unfoldable pub inherited : Text → Bool
unfolding codes has_text
inherited = has_text (
    codes "toString"
    ∷ codes "toLocaleString"
    ∷ codes "valueOf"
    ∷ codes "hasOwnProperty"
    ∷ codes "isPrototypeOf"
    ∷ codes "propertyIsEnumerable"
    ∷ codes "__defineGetter__"
    ∷ codes "__defineSetter__"
    ∷ codes "__lookupGetter__"
    ∷ codes "__lookupSetter__"
    ∷ [])

abbrev pub dash : Text
dash = b'-' ∷ []

-- What an edit does to the parent: the new parent and the value that was there.
abbrev pub Edit : Type 0
Edit = Json × Option Json

-- `add`: `existingValue`, `setValue`, and the clone of what was there.
unfoldable pub add_in : Text → Json → Json → Result Edit
unfolding inherited
add_in key v (arr xs) =
    if key =ₜ dash
    then ok (arr (push_item xs v), none)
    else elim (array_offset key (size xs) true) [
      | none ↦ err bad_index
      | some i ↦ ok (arr (insert_item xs i v), get_item xs i)
    ]
add_in key v (obj ms) =
    if is_none (get_member key ms) && inherited key
    then err not_json
    else ok (obj (set_member key v ms), get_member key ms)
add_in key v _ = err bad_parent

unfoldable pub replace_in : Text → Json → Json → Result Edit
replace_in key v (arr xs) = elim (array_offset key (size xs) false) [
  | none ↦ err bad_index
  | some i ↦ ok (arr (set_item xs i v), get_item xs i)
]
replace_in key v (obj ms) = elim (get_member key ms) [
  | none ↦ err missing_value
  | some w ↦ ok (obj (set_member key v ms), some w)
]
replace_in key v _ = err bad_parent

unfoldable pub remove_in : Text → Json → Result Edit
remove_in key (arr xs) = elim (array_offset key (size xs) false) [
  | none ↦ err bad_index
  | some i ↦ ok (arr (remove_item xs i), get_item xs i)
]
remove_in key (obj ms) = elim (get_member key ms) [
  | none ↦ err missing_value
  | some w ↦ ok (obj (remove_member key ms), some w)
]
remove_in key _ = err bad_parent

-- `test`: the value that is there.
unfoldable pub read_in : Text → Json → Result Edit
read_in key (arr xs) = elim (array_offset key (size xs) false) [
  | none ↦ err bad_index
  | some i ↦ ok (arr xs, get_item xs i)
]
read_in key (obj ms) = elim (get_member key ms) [
  | none ↦ err missing_value
  | some w ↦ ok (obj ms, some w)
]
read_in key _ = err bad_parent

-- `existingValue` of an `add`.
unfoldable pub look_in : Text → Json → Result Edit
look_in key (arr xs) =
    if key =ₜ dash then ok (arr xs, none) else elim (array_offset key (size xs) true) [
      | none ↦ err bad_index
      | some i ↦ ok (arr xs, get_item xs i)
    ]
look_in key (obj ms) = ok (obj ms, get_member key ms)
look_in key _ = err bad_parent

-- One step of `resolveParent`: the child that a segment names.
unfoldable pub child : Text → Json → Result Json
child key (arr xs) = elim (array_offset key (size xs) false) [
  | none ↦ err bad_index
  | some i ↦ or_err bad_index (get_item xs i)
]
child key (obj ms) = or_err missing_parent (get_member key ms)
child key _ = err missing_parent

-- The same place written again.
unfoldable pub put_child : Text → Json → Json → Json
put_child key v (arr xs) = elim (array_offset key (size xs) false) [
  | none ↦ arr xs
  | some i ↦ arr (set_item xs i v)
]
put_child key v (obj ms) = obj (set_member key v ms)
put_child key v j = j

-- `resolveParent` along all segments but the last, and an edit of the parent under the last one.
unfoldable pub edit_at : List Text → Text → (Text → Json → Result Edit) → Json → Result Edit
edit_at [] key edit j = edit key j
edit_at (s ∷ segments) key edit j = do
  c ← child s j
  r ← edit_at segments key edit c
  ok (put_child s r.0 j, r.1)

-- The segments of a pointer that is not the root, as the path of its parent and its key.
unfoldable pub last_of : Text → List Text → List Text × Text
last_of s [] = ([], s)
last_of s (t ∷ ts) = let (path, key) = last_of t ts in (s ∷ path, key)

-- An operation on the root.
unfoldable pub apply_root : Operation → Json → Result (Json × DiffItem)
apply_root o j = elim o.op [
  | remove ↦ err root_removal
  | test ↦ elim o.value [
    | none ↦ err test_failed
    | some v ↦
        if deep_equal j v
        then ok (j, record { op = test; path = []; before = some j; after = none })
        else err test_failed
  ]
  | unknown ↦ err unsupported
  | add ↦ elim o.value [
    | none ↦ err no_value
    | some v ↦ ok (v, record { op = add; path = []; before = some j; after = some v })
  ]
  | replace ↦ elim o.value [
    | none ↦ err no_value
    | some v ↦ ok (v, record { op = replace; path = []; before = some j; after = some v })
  ]
]

abbrev deep_equal? : Option Json → Json → Bool
deep_equal? none v = false
deep_equal? (some w) v = deep_equal w v

-- `test` behind the read.
unfoldable pub check_test : Operation → Edit → Result (Json × DiffItem)
check_test o (j, before) = elim o.value [
  | none ↦ err no_value
  | some v ↦
      if deep_equal? before v
      then ok (j, record { op = test; path = o.path; before = before; after = none })
      else err test_failed
]

-- An operation below the root, at a parent's path and a key.
unfoldable pub apply_below : Operation → List Text → Text → Json → Result (Json × DiffItem)
apply_below o path key j = elim o.op [
  | test ↦ edit_at path key read_in j >>= check_test o
  | remove ↦ edit_at path key remove_in j >>= λ r.
      ok (r.0, record { op = remove; path = o.path; before = r.1; after = none })
  | unknown ↦ err unsupported
  | add ↦ elim o.value [
    | none ↦ edit_at path key look_in j >>= λ _. err no_value
    | some v ↦ edit_at path key (λ k. add_in k v) j >>= λ r.
        ok (r.0, record { op = add; path = o.path; before = r.1; after = some v })
  ]
  | replace ↦ elim o.value [
    | none ↦ edit_at path key read_in j >>= λ _. err no_value
    | some v ↦ edit_at path key (λ k. replace_in k v) j >>= λ r.
        ok (r.0, record { op = replace; path = o.path; before = r.1; after = some v })
  ]
]

abbrev is_known : Op → Bool
is_known unknown = false
is_known _ = true

unfoldable pub apply_segments : Operation → List Text → Json → Result (Json × DiffItem)
apply_segments o [] j = apply_root o j
apply_segments o (s ∷ ss) j = let (path, key) = last_of s ss in apply_below o path key j

unfoldable pub apply_operation : Operation → Json → Result (Json × DiffItem)
apply_operation o j =
    if is_known o.op
    then elim (pointer_segments o.path) [
      | none ↦ err invalid_pointer
      | some segments ↦ if is_unsafe segments then err unsafe_path else apply_segments o segments j
    ]
    else err unsupported

-- The loop, which stops at the first exception.
unfoldable pub apply_all : List Operation → Json → Result (Json × List DiffItem)
apply_all [] j = ok (j, [])
apply_all (o ∷ os) j = do
  r ← apply_operation o j
  rest ← apply_all os r.0
  ok (rest.0, r.1 ∷ rest.1)

abbrev pub max_patch_operations : ℕ
max_patch_operations = 100

abbrev pub max_patch_bytes : ℕ
max_patch_bytes = 262144

-- `bytes` is the length of the patch as JSON text.
unfoldable pub apply_json_patch : ℕ → List Operation → Json → Result (Json × List DiffItem)
apply_json_patch bytes patch j =
    if length patch == 0
    then err empty_patch
    else if ltb max_patch_operations (length patch)
    then err too_many
    else if ltb max_patch_bytes bytes
    then err too_large
    else apply_all patch j
