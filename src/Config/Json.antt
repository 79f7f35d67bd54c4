-- ===== src/Config/Json.antt =====
-- JSON values as `JSON.parse` gives them, and `deepEqual` of ui/worker/lib/config-changes.ts. A
-- number stands by the text in which it is printed; the members of an object keep their order.
pub mod Laws
use benis_phone.Common.{
  ℕ, zero, suc, ◌+◌, ◌≡◌, refl, Bool, true, false, ◌&&◌, Option, none, some, arith, ◌==◌,
  if◌then◌else◌, is_some,
}
use benis_phone.Common.Text.{Text, ◌=ₜ◌}

mutual
  pub data Json : Type 0 where
    null : Json
    bool : Bool → Json
    num str : Text → Json
    arr : Items → Json
    obj : Members → Json

  pub data Items : Type 0 where
    nil : Items
    cons : Json → Items → Items

  pub data Members : Type 0 where
    end : Members
    member : Text → Json → Members → Members

-- `array.length`, `array[i]`, `array[i] = v`, `array.splice(i, 0, v)` and `array.splice(i, 1)`.
unfoldable pub size : Items → ℕ
size nil = 0
size (cons x xs) = suc (size xs)

unfoldable pub get_item : Items → ℕ → Option Json
get_item nil i = none
get_item (cons x xs) zero = some x
get_item (cons x xs) (suc i) = get_item xs i

unfoldable pub set_item : Items → ℕ → Json → Items
set_item nil i v = nil
set_item (cons x xs) zero v = cons v xs
set_item (cons x xs) (suc i) v = cons x (set_item xs i v)

unfoldable pub insert_item : Items → ℕ → Json → Items
insert_item xs zero v = cons v xs
insert_item nil (suc i) v = cons v nil
insert_item (cons x xs) (suc i) v = cons x (insert_item xs i v)

unfoldable pub remove_item : Items → ℕ → Items
remove_item nil i = nil
remove_item (cons x xs) zero = xs
remove_item (cons x xs) (suc i) = cons x (remove_item xs i)

-- `array.push(v)`
unfoldable pub push_item : Items → Json → Items
push_item nil v = cons v nil
push_item (cons x xs) v = cons x (push_item xs v)

-- `record[key]` of an own member, `record[key] = v`, `delete record[key]` and the number of keys.
unfoldable pub get_member : Text → Members → Option Json
get_member key end = none
get_member key (member k v ms) = if k =ₜ key then some v else get_member key ms

unfoldable pub set_member : Text → Json → Members → Members
set_member key v end = member key v end
set_member key v (member k w ms) =
    if k =ₜ key then member k v ms else member k w (set_member key v ms)

unfoldable pub remove_member : Text → Members → Members
remove_member key end = end
remove_member key (member k w ms) = if k =ₜ key then ms else member k w (remove_member key ms)

unfoldable pub member_count : Members → ℕ
member_count end = 0
member_count (member k v ms) = suc (member_count ms)

abbrev eq_bool : Bool → Bool → Bool
eq_bool true b = b
eq_bool false true = false
eq_bool false false = true

abbrev holds : Option Json → (Json → Bool) → Bool
holds none p = false
holds (some v) p = p v

unfoldable mutual
  pub deep_equal : Json → Json → Bool
  deep_equal null null = true
  deep_equal (bool a) (bool b) = eq_bool a b
  deep_equal (num a) (num b) = a =ₜ b
  deep_equal (str a) (str b) = a =ₜ b
  deep_equal (arr xs) (arr ys) = (size xs == size ys) && deep_items xs ys
  deep_equal (obj ms) (obj ns) = (member_count ms == member_count ns) && deep_members ms ns
  deep_equal _ _ = false

  -- `left.every((item, index) => deepEqual(item, right[index]))`, for lists of one length.
  pub deep_items : Items → Items → Bool
  deep_items nil ys = true
  deep_items (cons x xs) nil = false
  deep_items (cons x xs) (cons y ys) = deep_equal x y && deep_items xs ys

  -- `leftKeys.every((key) => Object.hasOwn(right, key) && deepEqual(left[key], right[key]))`
  pub deep_members : Members → Members → Bool
  deep_members end ns = true
  deep_members (member k v ms) ns = holds (get_member k ns) (deep_equal v) && deep_members ms ns
