-- ===== src/Bridge/Crypto/Canonical.antt =====
-- The texts that are signed determine their parts.
use benis_phone.Common.{
  String, ◌≡◌, refl, true, not, List, [], ◌∷◌, ◌++◌, map, arith, ◌==◌, all, All,
}
use benis_phone.Common.Text.{Text, codes}
use benis_phone.Bridge.Crypto.{upper, lower, join_lines, canonical_bridge_request}

abbrev pub IsLine : Text → Type 0
IsLine s = all (λ c. not (c == b'\n')) s ≡ true

append_newline_inj :
    (x y u v : Text) → IsLine x → IsLine y → x ++ b'\n' ∷ u ≡ y ++ b'\n' ∷ v → (x ≡ y) × (u ≡ v)
append_newline_inj [] [] u v h k e = (refl, cc)
append_newline_inj [] (d ∷ y) u v h k e = absurd (ground arith)
append_newline_inj (c ∷ x) [] u v h k e = absurd (ground arith)
append_newline_inj (c ∷ x) (d ∷ y) u v h k e =
    let (same, rest) = append_newline_inj x y u v (ground arith) (ground arith) (ground arith) in
    (ground (arith, same), rest)

-- Two lists of as many lines, one at least, with one joined text are equal.
abbrev SameLength : List Text → List Text → Type 0
SameLength [] [] = Unit
SameLength [] (_ ∷ _) = ⊥
SameLength (_ ∷ _) [] = ⊥
SameLength (_ ∷ xs) (_ ∷ ys) = SameLength xs ys

join_lines_inj :
    (xs ys : List Text)
    → SameLength xs ys
    → All IsLine xs
    → All IsLine ys
    → join_lines xs ≡ join_lines ys
    → xs ≡ ys
unfolding join_lines
join_lines_inj [] [] n h k e = refl
join_lines_inj [] (y ∷ ys) n h k e = absurd n
join_lines_inj (x ∷ xs) [] n h k e = absurd n
join_lines_inj (x ∷ []) (y ∷ []) n h k e = cc
join_lines_inj (x ∷ []) (y ∷ z ∷ ys) n h k e = absurd n
join_lines_inj (x ∷ w ∷ xs) (y ∷ []) n h k e = absurd n
join_lines_inj (x ∷ w ∷ xs) (y ∷ z ∷ ys) n (h, hs) (k, ks) e =
    let (same, rest) = append_newline_inj x y _ _ h k e in
    cc (same, join_lines_inj (w ∷ xs) (z ∷ ys) n hs ks rest)

version-IsLine : IsLine (codes "v1")
unfolding codes
version-IsLine = refl

-- Two requests whose parts hold no line break have the same signed text only if they agree in the
-- method up to case, the path, the body's hash up to case, the time stamp and the nonce.
pub canonical_bridge_request_inj :
    (m p t n : String) (hash : Text) (m' p' t' n' : String) (hash' : Text)
    → All IsLine (map upper (codes m) ∷ codes p ∷ map lower hash ∷ codes t ∷ codes n ∷ [])
    → All IsLine (map upper (codes m') ∷ codes p' ∷ map lower hash' ∷ codes t' ∷ codes n' ∷ [])
    → canonical_bridge_request m p hash t n ≡ canonical_bridge_request m' p' hash' t' n'
    → (map upper (codes m) ≡ map upper (codes m'))
      × (codes p ≡ codes p')
      × (map lower hash ≡ map lower hash')
      × (codes t ≡ codes t')
      × (codes n ≡ codes n')
unfolding canonical_bridge_request
canonical_bridge_request_inj m p t n hash m' p' t' n' hash' h k e =
    let same =
      join_lines_inj
        (codes "v1" ∷ map upper (codes m) ∷ codes p ∷ map lower hash ∷ codes t ∷ codes n ∷ [])
        (codes "v1" ∷ map upper (codes m') ∷ codes p' ∷ map lower hash' ∷ codes t' ∷ codes n' ∷ [])
        tt (version-IsLine, h) (version-IsLine, k) e in
    (cc same, cc same, cc same, cc same, cc same)
