-- ===== src/Config/Pointer.antt =====
-- JSON pointers: `pointerSegments` and `arrayOffset` of ui/worker/lib/config-changes.ts.
use benis_phone.Common.{
  ℕ, ◌<◌, ◌≤◌, ◌≡◌, Bool, true, false, not, ◌&&◌, ◌||◌, Option, none, some, List, [], ◌∷◌, map,
  arith, ◌==◌, leb, if◌then◌else◌, all, any,
}
use benis_phone.Common.Text.{Text, codes, is_digit, to_number, max_safe_integer, split, has_text}

-- `/~(?![01])/` finds nothing.
unfoldable pub escapes_ok : Text → Bool
escapes_ok [] = true
escapes_ok (c ∷ []) = not (c == b'~')
escapes_ok (c ∷ d ∷ s) = (not (c == b'~') || d == b'0' || d == b'1') && escapes_ok (d ∷ s)

-- `.replace(/~1/g, "/")` and `.replace(/~0/g, "~")`
unfoldable pub replace_pair : ℕ → ℕ → ℕ → Text → Text
replace_pair a b r [] = []
replace_pair a b r (c ∷ []) = c ∷ []
replace_pair a b r (c ∷ d ∷ s) =
    let skip = replace_pair a b r s in
    let keep = replace_pair a b r (d ∷ s) in if c == a && d == b then r ∷ skip else c ∷ keep

unfoldable pub unescape : Text → Text
unfolding replace_pair
unescape s = replace_pair b'~' b'0' b'~' (replace_pair b'~' b'1' b'/' s)

-- `none` where a pointer is refused.
unfoldable pub pointer_segments : Text → Option (List Text)
unfolding escapes_ok unescape split
pointer_segments [] = some []
pointer_segments (c ∷ s) =
    if c == b'/' && all escapes_ok (split b'/' s) then some (map unescape (split b'/' s)) else none

unfoldable pub unsafe_segments : List Text
unfolding codes
unsafe_segments = codes "__proto__" ∷ codes "prototype" ∷ codes "constructor" ∷ []

unfoldable pub is_unsafe : List Text → Bool
unfolding has_text unsafe_segments
is_unsafe segments = any (has_text unsafe_segments) segments

-- `/^(0|[1-9]\d*)$/`
unfoldable pub is_index : Text → Bool
is_index [] = false
is_index (c ∷ []) = is_digit c
is_index (c ∷ d ∷ s) = is_digit c && not (c == b'0') && all is_digit (d ∷ s)

-- `arrayOffset`; `none` where it throws.
unfoldable pub array_offset : Text → ℕ → Bool → Option ℕ
unfolding is_index to_number
array_offset key length allow_end =
    if is_index key
      && leb (to_number key) max_safe_integer
      && leb (to_number key) length
      && (allow_end || not (to_number key == length))
    then some (to_number key)
    else none

-- An offset lies in the array, or at its end where that is allowed.
pub array_offset-lt :
    (key : Text) (length : ℕ) {i : ℕ} → array_offset key length false ≡ some i → i < length
unfolding array_offset
array_offset-lt key length h = ground arith

pub array_offset-le :
    (key : Text) (length : ℕ) (allow_end : Bool) {i : ℕ}
    → array_offset key length allow_end ≡ some i
    → i ≤ length
unfolding array_offset
array_offset-le key length allow_end h = ground arith
