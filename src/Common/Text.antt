-- ===== src/Common/Text.antt =====
-- Texts as lists of UTF-16 units, which is what the program's strings are: tests on characters, the
-- regular expressions in use, splitting, trimming and hexadecimal digits.
use Prim.Native.Char.{code}
use Prim.Native.Nat.{ℕ, ◌+◌, ◌-◌, ◌*◌, ◌/◌, ◌%◌}
use Prim.Native.String.{String}
use mathlib.Core.Path.{◌≡◌}
use mathlib.Core.Logic.{◌↔◌}
use mathlib.Core.Bool.{Bool, true, false, ◌&&◌, ◌||◌}
use mathlib.Core.Option.{Option, none, some}
use mathlib.Core.List.{List, [], ◌∷◌, ◌++◌, reverse}
use native.Mathlib.Omega.{arith}
use benis_phone.Common.Tests.{leb, ◌==◌, if◌then◌else◌}
use benis_phone.Common.Lists.{all, length}

abbrev pub Text : Type 0
Text = List ℕ

-- The UTF-16 units of a code point, in front of the rest.
abbrev units : ℕ → Text → Text
units c rest =
    if leb 0x10000 c
    then (0xd800 + (c - 0x10000) / 0x400) ∷ (0xdc00 + (c - 0x10000) % 0x400) ∷ rest
    else c ∷ rest

unfoldable pub codes : String → Text
codes String.[] = []
codes (String.◌∷◌ c s) = units (code c) (codes s)

abbrev pub is_digit : ℕ → Bool
is_digit c = leb b'0' c && leb c b'9'

abbrev pub is_upper : ℕ → Bool
is_upper c = leb b'A' c && leb c b'Z'

abbrev pub is_lower : ℕ → Bool
is_lower c = leb b'a' c && leb c b'z'

-- `[A-Za-z0-9_-]`
abbrev pub is_word_dash : ℕ → Bool
is_word_dash c = is_digit c || is_upper c || is_lower c || c == b'_' || c == b'-'

-- `[0-9a-f-]` with the flag `i`.
abbrev pub is_hex_dash : ℕ → Bool
is_hex_dash c = is_digit c || (leb b'a' c && leb c b'f') || (leb b'A' c && leb c b'F') || c == b'-'

-- `/^[class]{lo,hi}$/`
unfoldable pub matches : (ℕ → Bool) → ℕ → ℕ → Text → Bool
matches cls lo hi s = all cls s && (leb lo (length s) && leb (length s) hi)

-- `Number(s)` for a text of decimal digits.
unfoldable pub to_number_from : ℕ → Text → ℕ
to_number_from acc [] = acc
to_number_from acc (c ∷ s) = to_number_from (acc * 10 + (c - b'0')) s

unfoldable pub to_number : Text → ℕ
unfolding to_number_from
to_number s = to_number_from 0 s

abbrev pub max_safe_integer : ℕ
max_safe_integer = 9007199254740991

-- `===` on walked texts.
infix 50 ◌=ₜ◌
unfoldable pub ◌=ₜ◌ : Text → Text → Bool
[] =ₜ [] = true
[] =ₜ (_ ∷ _) = false
(_ ∷ _) =ₜ [] = false
(c ∷ s) =ₜ (d ∷ t) = c == d && (s =ₜ t)

pub =ₜ_iff : (s t : Text) → ((s =ₜ t) ≡ true) ↔ (s ≡ t)
unfolding ◌=ₜ◌
=ₜ_iff [] [] = ground arith
=ₜ_iff [] (d ∷ t) = ground arith
=ₜ_iff (c ∷ s) [] = ground arith
=ₜ_iff (c ∷ s) (d ∷ t) = ground (arith, =ₜ_iff s t)

-- `\s`
abbrev pub is_space : ℕ → Bool
is_space c =
    (leb 9 c && leb c 13)
    || c == 32
    || c == 0xa0
    || c == 0x1680
    || (leb 0x2000 c && leb c 0x200a)
    || c == 0x2028
    || c == 0x2029
    || c == 0x202f
    || c == 0x205f
    || c == 0x3000
    || c == 0xfeff

unfoldable pub trim_start : Text → Text
trim_start [] = []
trim_start (c ∷ s) = if is_space c then trim_start s else c ∷ s

-- `.trim()`
unfoldable pub trim : Text → Text
unfolding trim_start
trim s = reverse (trim_start (reverse (trim_start s)))

-- `.split(sep)` for one unit `sep`: the first part, and the others.
unfoldable pub split_first : ℕ → Text → Text × List Text
split_first sep [] = ([], [])
split_first sep (c ∷ s) =
    let (part, parts) = split_first sep s in
    if c == sep then ([], part ∷ parts) else (c ∷ part, parts)

unfoldable pub split : ℕ → Text → List Text
unfolding split_first
split sep s = let (part, parts) = split_first sep s in part ∷ parts

-- `.join(sep)`
unfoldable pub join : Text → List Text → Text
join sep [] = []
join sep (x ∷ []) = x
join sep (x ∷ y ∷ xs) = x ++ (sep ++ join sep (y ∷ xs))

-- `.split(/\s+/).filter(Boolean)`: the maximal runs of other units.
unfoldable pub words_from : Text → Text → List Text
words_from cur [] = elim cur [ [] ↦ [] | c ∷ w ↦ reverse (c ∷ w) ∷ [] ]
words_from cur (c ∷ s) =
    let rest = words_from [] s in
    let longer = words_from (c ∷ cur) s in
    if is_space c then elim cur [ [] ↦ rest | d ∷ w ↦ reverse (d ∷ w) ∷ rest ] else longer

unfoldable pub words : Text → List Text
unfolding words_from
words s = words_from [] s

-- The rest of a text that begins with the given one.
unfoldable pub strip_prefix : Text → Text → Option Text
strip_prefix [] s = some s
strip_prefix (c ∷ p) [] = none
strip_prefix (c ∷ p) (d ∷ s) = if c == d then strip_prefix p s else none

unfoldable pub has_text : List Text → Text → Bool
has_text [] t = false
has_text (x ∷ xs) t = (x =ₜ t) || has_text xs t

-- `[...new Set(xs)]` on the items behind those that were seen.
unfoldable pub distinct_from : List Text → List Text → List Text
distinct_from seen [] = []
distinct_from seen (x ∷ xs) =
    let rest = distinct_from (x ∷ seen) xs in
    let same = distinct_from seen xs in if has_text seen x then same else x ∷ rest

unfoldable pub hex_digit : ℕ → ℕ
hex_digit n = if leb n 9 then b'0' + n else b'a' + (n - 10)

-- `byte.toString(16).padStart(2, "0")`
unfoldable pub hex_byte : ℕ → Text
unfolding hex_digit
hex_byte b = hex_digit (b / 16) ∷ hex_digit (b % 16) ∷ []

unfoldable pub hex : List ℕ → Text
unfolding hex_byte
hex [] = []
hex (b ∷ bs) = hex_byte b ++ hex bs
