-- ===== src/Graph/Script/Found/Leftmost.antt =====
-- The search of `scriptGotoTargets` in ui/src/lib/fn-graph.ts goes on behind its first match.
use benis_phone.Common.{
  ℕ, zero, ◌-◌, ◌≡◌, ◌≢◌, refl, ap, sym, ◌∙◌, inl, inr, Bool, true, false, none, some, [], ◌∷◌,
  ◌++◌, if◌then◌else◌, length, length-append, arith, Option-cases,
}
use benis_phone.Common.Text.{Text, codes, strip_prefix}
use benis_phone.Graph.Script.{is_word, is_quote, goto_at, goto_targets}
use benis_phone.Graph.Script.Found.Matches.{
  ends_word, ends_word-append, IsMatch, append_assoc, goto_at_sound, goto_at_complete,
}
use mathlib.Core.List.{tail-eq_of_cons-eq}

-- A hit is not in the middle of a word.
pub hit_sound :
    (w : Bool) (s : Text) {r : Text × Text}
    → (if w then none else goto_at s) ≡ some r
    → (w ≡ false) × (goto_at s ≡ some r)
hit_sound true s h = absurd (ground arith)
hit_sound false s h = (refl, h)

quote_not_word : (q : ℕ) → is_quote q ≡ true → is_word q ≡ false
quote_not_word q k = ground arith

goto_targets_skip :
    (w : Bool) (xs ys : Text)
    → goto_targets w (length xs) (xs ++ ys) ≡ goto_targets (ends_word w xs) zero ys
unfolding goto_targets ends_word
goto_targets_skip w [] ys = refl
goto_targets_skip w (x ∷ xs) ys = goto_targets_skip (is_word x) xs ys

-- A match is `g`, some text that ends with a quote, and the rest.
match_parts :
    (s name rest : Text)
    → IsMatch s name rest
    → (pre : Text) × (q : ℕ) × (s ≡ 103 ∷ ((pre ++ (q ∷ [])) ++ rest)) × (is_quote q ≡ true)
unfolding codes
match_parts s name rest m =
    let q = m.quote in
    let end = q ∷ rest in
    let named = q ∷ (name ++ end) in
    let pre = 111 ∷ 116 ∷ 111 ∷ (m.gap ++ (40 ∷ (m.gap' ++ (q ∷ name)))) in
    let a1 = append_assoc m.gap' (q ∷ name) end in
    let a2 = append_assoc m.gap (40 ∷ (m.gap' ++ (q ∷ name))) end in
    let inner : m.gap ++ (40 ∷ (m.gap' ++ named))
        ≡ (m.gap ++ (40 ∷ (m.gap' ++ (q ∷ name)))) ++ end =
      sym (a2 ∙ ap (λ x. m.gap ++ (40 ∷ x)) a1) in
    (
      pre,
      q,
      m.whole
          ∙ ap (λ x. 103 ∷ 111 ∷ 116 ∷ 111 ∷ x) inner
          ∙ ap (λ x. 103 ∷ x) (sym (append_assoc pre (q ∷ []) rest)),
      m.opened,
    )

behind_match :
    (c : ℕ) (s name rest : Text)
    → IsMatch (c ∷ s) name rest
    → goto_targets (is_word c) (length s - length rest) s ≡ goto_targets false zero rest
behind_match c s name rest m =
    let (pre, q, e, k) = match_parts (c ∷ s) name rest m in
    let xs = pre ++ (q ∷ []) in
    let same : s ≡ xs ++ rest = tail-eq_of_cons-eq e in
    let n : length (xs ++ rest) - length rest ≡ length xs = omega (arith, length-append xs rest) in
    let edge : ends_word (is_word c) xs ≡ false =
      ends_word-append (is_word c) pre q ∙ quote_not_word q k in
    ap (λ x. goto_targets (is_word c) (length x - length rest) x) same
    ∙ ap (λ x. goto_targets (is_word c) x (xs ++ rest)) n
    ∙ goto_targets_skip (is_word c) xs rest
    ∙ ap (λ x. goto_targets x zero rest) edge

-- The first call in a text: it does not start within a word, and no match in front of it does not.
unfoldable pub IsFirst : Bool → Text → Text → Type 0
IsFirst w before call =
    (b b' : Text)
    → before ≡ b ++ b'
    → b' ≢ []
    → ends_word w b ≡ false
    → (name rest : Text) → IsMatch (b' ++ call) name rest
    → ⊥

pub not_nil : (c : ℕ) (s : Text) → c ∷ s ≢ []
not_nil c s h = ground arith

goto_at_nothing : {r : Text × Text} → goto_at [] ≡ some r → ⊥
unfolding goto_at strip_prefix codes
goto_at_nothing h = ground arith

pub goto_targets_leftmost :
    (w : Bool) (before call name rest : Text)
    → ends_word w before ≡ false
    → IsMatch call name rest
    → IsFirst w before call
    → goto_targets w zero (before ++ call) ≡ name ∷ goto_targets false zero rest
unfolding goto_targets ends_word IsFirst
goto_targets_leftmost w [] [] name rest b m f =
    absurd (goto_at_nothing {r = (name, rest)} (goto_at_complete [] name rest m))
goto_targets_leftmost w [] (c ∷ s) name rest b m f =
    let h = goto_at_complete (c ∷ s) name rest m in
    let hit : (if w then none else goto_at (c ∷ s)) ≡ some (name, rest) = rw (b, h) refl in
    rw (goto_targets, hit) (ap (λ x. name ∷ x) (behind_match c s name rest m))
goto_targets_leftmost w (c ∷ before) call name rest b m f =
    elim (Option-cases (if w then none else goto_at (c ∷ (before ++ call)))) [
      | inl n ↦
          rw (goto_targets, n)
            (goto_targets_leftmost (is_word c) before call name rest b m
              (λ x y e. f (c ∷ x) y (ap (λ z. c ∷ z) e)))
      | inr ((n, r), h) ↦
          let (outside, found) = hit_sound w (c ∷ (before ++ call)) {r = (n, r)} h in
          let early = goto_at_sound (c ∷ (before ++ call)) {name = n} {rest = r} found in
          absurd (f [] (c ∷ before) refl (not_nil c before) outside n r early)
    ]
