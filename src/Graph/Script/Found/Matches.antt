-- ===== src/Graph/Script/Found/Matches.antt =====
-- The regular expression of `scriptGotoTargets` in ui/src/lib/fn-graph.ts: where it matches.
use benis_phone.Common.{
  Bool, ℕ, ◌≡◌, ◌≢◌, refl, ap, sym, subst, ◌∙◌, inl, inr, true, false, none, some, [], ◌∷◌, ◌++◌,
  All, ◌==◌, ==_iff, arith, Bool-cases, Option-cases, some-inj,
}
use benis_phone.Common.Text.{Text, codes, is_space, strip_prefix, trim_start}
use benis_phone.Graph.Script.{is_word, is_quote, until_quote, close_quote, quoted, goto_at}

-- Whether a text ends within a word, behind a unit that is of a word or not.
unfoldable pub ends_word : Bool → Text → Bool
ends_word w [] = w
ends_word w (c ∷ s) = ends_word (is_word c) s

pub ends_word-append : (w : Bool) (xs : Text) (c : ℕ) → ends_word w (xs ++ (c ∷ [])) ≡ is_word c
unfolding ends_word
ends_word-append w [] c = refl
ends_word-append w (x ∷ xs) c = ends_word-append (is_word x) xs c

-- A text that starts with `goto`, a parenthesis and a name, in quotes of one kind, which may have
-- blanks around the parenthesis; the name has no quotes and is not empty.
pub record IsMatch (s name rest : Text) : Type 0 where
  pub gap : Text
  pub gap' : Text
  pub quote : ℕ
  pub whole :
      s ≡ codes "goto" ++ (gap ++ (codes "(" ++ (gap' ++ (quote ∷ (name ++ (quote ∷ rest))))))
  pub blank : All (λ c. is_space c ≡ true) gap
  pub blank' : All (λ c. is_space c ≡ true) gap'
  pub opened : is_quote quote ≡ true
  pub plain : All (λ c. is_quote c ≡ false) name
  pub given : name ≢ []

pub append_assoc : (xs ys zs : Text) → (xs ++ ys) ++ zs ≡ xs ++ (ys ++ zs)
append_assoc [] ys zs = refl
append_assoc (x ∷ xs) ys zs = ap (λ s. x ∷ s) (append_assoc xs ys zs)

strip_prefix_sound : (p s : Text) {r : Text} → strip_prefix p s ≡ some r → s ≡ p ++ r
unfolding strip_prefix
strip_prefix_sound [] s h = some-inj h
strip_prefix_sound (c ∷ p) [] h = absurd (ground arith)
strip_prefix_sound (c ∷ p) (d ∷ s) {r} h = elim (Bool-cases (c == d)) [
  | inl t ↦
      let rest = strip_prefix_sound p s {r = r} (rw t at h) in
      let same = (==_iff c d).0 t in ap (λ x. x ∷ s) (sym same) ∙ ap (λ x. c ∷ x) rest
  | inr f ↦ absurd (let h' = rw f at h in ground arith)
]

strip_prefix_complete : (p r : Text) → strip_prefix p (p ++ r) ≡ some r
unfolding strip_prefix
strip_prefix_complete [] r = refl
strip_prefix_complete (c ∷ p) r = rw ((==_iff c c).1 refl) (strip_prefix_complete p r)

trim_start_sound :
    (s : Text) → (gap : Text) × (s ≡ gap ++ trim_start s) × All (λ c. is_space c ≡ true) gap
unfolding trim_start
trim_start_sound [] = ([], refl, tt)
trim_start_sound (c ∷ s) = elim (Bool-cases (is_space c)) [
  | inl t ↦
      let (gap, e, h) = trim_start_sound s in
      (c ∷ gap, rw (trim_start, t) (ap (λ x. c ∷ x) e), (t, h))
  | inr f ↦ ([], rw (trim_start, f) refl, tt)
]

trim_start_complete :
    (gap : Text) (c : ℕ) (s : Text)
    → All (λ d. is_space d ≡ true) gap
    → is_space c ≡ false
    → trim_start (gap ++ (c ∷ s)) ≡ c ∷ s
unfolding trim_start
trim_start_complete [] c s h f = rw f refl
trim_start_complete (d ∷ gap) c s (t, h) f = rw t (trim_start_complete gap c s h f)

until_quote_sound :
    (s : Text)
    → (s ≡ (until_quote s).0 ++ (until_quote s).1) × All (λ c. is_quote c ≡ false) (until_quote s).0
unfolding until_quote
until_quote_sound [] = (refl, tt)
until_quote_sound (c ∷ s) = elim (Bool-cases (is_quote c)) [
  | inl t ↦ (rw (until_quote, t) refl, rw (until_quote, t) tt)
  | inr f ↦
      let (e, h) = until_quote_sound s in
      (rw (until_quote, f) (ap (λ x. c ∷ x) e), rw (until_quote, f) (f, h))
]

until_quote_complete :
    (q : ℕ) (t rest : Text)
    → is_quote q ≡ true
    → All (λ c. is_quote c ≡ false) t
    → until_quote (t ++ (q ∷ rest)) ≡ (t, q ∷ rest)
unfolding until_quote
until_quote_complete q [] rest k h = rw k refl
until_quote_complete q (c ∷ t) rest k (f, h) = rw (f, until_quote_complete q t rest k h) refl

close_quote_sound :
    (q : ℕ) (t s : Text) {name rest : Text}
    → close_quote q (t, s) ≡ some (name, rest)
    → (t ≡ name) × (s ≡ q ∷ rest) × (name ≢ [])
unfolding close_quote
close_quote_sound q [] s h = absurd (ground arith)
close_quote_sound q (c ∷ t) [] h = absurd (ground arith)
close_quote_sound q (c ∷ t) (d ∷ s) {name} {rest} h = elim (Bool-cases (d == q)) [
  | inl k ↦
      let pair : (c ∷ t, s) ≡ (name, rest) = some-inj (rw (close_quote, k) at h) in
      let same : c ∷ t ≡ name = ap (λ x. x.0) pair in
      (
        same,
        ap (λ x. x ∷ s) ((==_iff d q).0 k) ∙ ap (λ x. q ∷ x.1) pair,
        λ n. absurd (let e : c ∷ t ≡ [] = same ∙ n in ground arith),
      )
  | inr f ↦ absurd (let h' : none ≡ some (name, rest) = rw (close_quote, f) at h in ground arith)
]

quoted_sound :
    (s : Text) {name rest : Text}
    → quoted s ≡ some (name, rest)
    → (q : ℕ) × (s ≡ q ∷ (name ++ (q ∷ rest)))
      × (is_quote q ≡ true)
      × All (λ c. is_quote c ≡ false) name
      × (name ≢ [])
unfolding quoted
quoted_sound [] h = absurd (ground arith)
quoted_sound (q ∷ s) {name} {rest} h = elim (Bool-cases (is_quote q)) [
  | inr f ↦ absurd (let h' : none ≡ some (name, rest) = rw (quoted, f) at h in ground arith)
  | inl k ↦
      let (e, plain) = until_quote_sound s in
      let h' : close_quote q (until_quote s) ≡ some (name, rest) = rw (quoted, k) at h in
      let (same, behind, given) =
        close_quote_sound q (until_quote s).0 (until_quote s).1 {name = name} {rest = rest} h' in
      (
        q,
        ap (λ x. q ∷ x) (e ∙ ap (λ x. x ++ (until_quote s).1) same ∙ ap (λ x. name ++ x) behind),
        k,
        subst (All (λ c. is_quote c ≡ false)) same plain,
        given,
      )
]

quoted_complete :
    (q : ℕ) (name rest : Text)
    → is_quote q ≡ true
    → All (λ c. is_quote c ≡ false) name
    → name ≢ []
    → quoted (q ∷ (name ++ (q ∷ rest))) ≡ some (name, rest)
unfolding quoted close_quote
quoted_complete q [] rest k h n = absurd (n refl)
quoted_complete q (c ∷ name) rest k h n =
    let all_plain = until_quote_complete q (c ∷ name) rest k h in
    rw (k, all_plain, (==_iff q q).1 refl) refl

pub goto_at_sound :
    (s : Text) {name rest : Text} → goto_at s ≡ some (name, rest) → IsMatch s name rest
unfolding goto_at
goto_at_sound s {name} {rest} h = elim (Option-cases (strip_prefix (codes "goto") s)) [
  | inl n ↦ absurd (let h' : none ≡ some (name, rest) = rw (goto_at, n) at h in ground arith)
  | inr (s1, e1) ↦
      let (gap, g, blank) = trim_start_sound s1 in
      elim (Option-cases (strip_prefix (codes "(") (trim_start s1))) [
        | inl n ↦
            absurd (let h' : none ≡ some (name, rest) = rw (goto_at, e1, n) at h in ground arith)
        | inr (s2, e2) ↦
            let (gap', g', blank') = trim_start_sound s2 in
            let h' : quoted (trim_start s2) ≡ some (name, rest) = rw (goto_at, e1, e2) at h in
            let (q, k, opened, plain, given) =
              quoted_sound (trim_start s2) {name = name} {rest = rest} h' in
            record {
              gap = gap;
              gap' = gap';
              quote = q;
              whole =
                  strip_prefix_sound (codes "goto") s {r = s1} e1
                  ∙ ap (λ x. codes "goto" ++ x)
                      (g
                        ∙ ap (λ x. gap ++ x)
                            (strip_prefix_sound (codes "(") (trim_start s1) {r = s2} e2
                              ∙ ap (λ x. codes "(" ++ x) (g' ∙ ap (λ x. gap' ++ x) k)));
              blank = blank;
              blank' = blank';
              opened = opened;
              plain = plain;
              given = given;
            }
      ]
]

parenthesis :
    (gap s : Text)
    → All (λ c. is_space c ≡ true) gap
    → trim_start (gap ++ (codes "(" ++ s)) ≡ codes "(" ++ s
unfolding codes
parenthesis gap s h = trim_start_complete gap 40 s h refl

quote_not_space : (q : ℕ) → is_quote q ≡ true → is_space q ≡ false
quote_not_space q k = ground arith

pub goto_at_complete : (s name rest : Text) → IsMatch s name rest → goto_at s ≡ some (name, rest)
unfolding goto_at
goto_at_complete s name rest m =
    let s3 = m.quote ∷ (name ++ (m.quote ∷ rest)) in
    let s2 = m.gap' ++ s3 in
    let s1 = m.gap ++ (codes "(" ++ s2) in
    let e1 : strip_prefix (codes "goto") s ≡ some s1 =
      ap (strip_prefix (codes "goto")) m.whole ∙ strip_prefix_complete (codes "goto") s1 in
    let t1 : trim_start s1 ≡ codes "(" ++ s2 = parenthesis m.gap s2 m.blank in
    let e2 : strip_prefix (codes "(") (trim_start s1) ≡ some s2 =
      ap (strip_prefix (codes "(")) t1 ∙ strip_prefix_complete (codes "(") s2 in
    let t2 : trim_start s2 ≡ s3 =
      trim_start_complete m.gap' m.quote (name ++ (m.quote ∷ rest)) m.blank'
        (quote_not_space m.quote m.opened) in
    let e3 : quoted (trim_start s2) ≡ some (name, rest) =
      ap quoted t2 ∙ quoted_complete m.quote name rest m.opened m.plain m.given in
    rw (goto_at, e1, e2) e3
