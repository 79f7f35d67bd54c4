-- ===== src/Graph/Script/Found.antt =====
-- `scriptGotoTargets` of ui/src/lib/fn-graph.ts against a description of the calls in a script.
pub mod Matches
pub mod Leftmost
mod Tests
use benis_phone.Common.{
  ◌>>=◌, ℕ, zero, suc, ◌-◌, ◌≡◌, ◌≢◌, refl, ap, sym, subst, ◌∙◌, inl, inr, Bool, true, false, ◌||◌,
  not, ◌&&◌, Option, none, some, List, [], ◌∷◌, ◌++◌, All, if◌then◌else◌, length, ◌==◌, ==_iff,
  arith, Bool-cases, Option-cases, some-inj,
}
use benis_phone.Common.Text.{
  Text, codes, is_space, distinct_from, ◌=ₜ◌, =ₜ_iff, strip_prefix, trim_start, has_text,
}
use benis_phone.Graph.Script.{
  is_word, is_quote, until_quote, close_quote, quoted, goto_at, goto_targets, script_goto_targets,
}
use benis_phone.Graph.Script.Found.Matches.{
  ends_word, ends_word-append, IsMatch, append_assoc, goto_at_sound, goto_at_complete,
}
use benis_phone.Graph.Script.Found.Leftmost.{hit_sound, IsFirst, goto_targets_leftmost}

-- A call of `goto` somewhere in a script, which is not the end of a longer word.
pub record IsCall (script name : Text) : Type 0 where
  pub before : Text
  pub call : Text
  pub rest : Text
  pub whole : script ≡ before ++ call
  pub boundary : ends_word false before ≡ false
  pub matched : IsMatch call name rest

goto_targets_sound :
    (script before : Text) (w : Bool) (skip : ℕ) (s : Text)
    → script ≡ before ++ s
    → ends_word false before ≡ w
    → All (IsCall script) (goto_targets w skip s)
unfolding goto_targets
goto_targets_sound script before w skip [] e b = tt
goto_targets_sound script before w (suc skip) (c ∷ s) e b =
    goto_targets_sound script (before ++ (c ∷ [])) (is_word c) skip s
      (e ∙ sym (append_assoc before (c ∷ []) s)) (ends_word-append false before c)
goto_targets_sound script before w zero (c ∷ s) e b =
    let next = e ∙ sym (append_assoc before (c ∷ []) s) in
    let edge = ends_word-append false before c in
    elim (Option-cases (if w then none else goto_at (c ∷ s))) [
      | inl n ↦
          rw (goto_targets, n)
            (goto_targets_sound script (before ++ (c ∷ [])) (is_word c) zero s next edge)
      | inr ((name, rest), h) ↦
          let (outside, found) = hit_sound w (c ∷ s) {r = (name, rest)} h in
          let call : IsCall script name = record {
            before = before;
            call = c ∷ s;
            rest = rest;
            whole = e;
            boundary = b ∙ outside;
            matched = goto_at_sound (c ∷ s) {name = name} {rest = rest} found;
          } in
          let others =
            goto_targets_sound script (before ++ (c ∷ [])) (is_word c) (length s - length rest) s
              next edge in
          rw (goto_targets, h) (call, others)
    ]

All-distinct_from :
    (P : Text → Type 0) (seen xs : List Text) → All P xs → All P (distinct_from seen xs)
unfolding distinct_from
All-distinct_from P seen [] h = tt
All-distinct_from P seen (x ∷ xs) (p, h) = elim (Bool-cases (has_text seen x)) [
  | inl t ↦ rw (distinct_from, t) (All-distinct_from P seen xs h)
  | inr f ↦ rw (distinct_from, f) (p, All-distinct_from P (x ∷ seen) xs h)
]

has_text-distinct_from :
    (seen xs : List Text) (x : Text)
    → (has_text seen x || has_text (distinct_from seen xs) x) ≡ (has_text seen x || has_text xs x)
unfolding distinct_from has_text
has_text-distinct_from seen [] x = refl
has_text-distinct_from seen (y ∷ xs) x = elim (Bool-cases (has_text seen y)) [
  | inr f ↦
      let ih = has_text-distinct_from (y ∷ seen) xs x in rw (distinct_from, f) (ground (arith, ih))
  | inl t ↦
      let ih = has_text-distinct_from seen xs x in
      elim (Bool-cases (y =ₜ x)) [
        | inr other ↦ rw (distinct_from, t, other) ih
        | inl same ↦
            let held : has_text seen x ≡ true = rw ((=ₜ_iff y x).0 same) at t in rw held refl
      ]
]

-- Every target of a script is the name in a call of `goto` that stands in it, outside of a longer
-- word and with the same quote on both sides.
pub script_goto_targets-IsCall : (script : Text) → All (IsCall script) (script_goto_targets script)
unfolding script_goto_targets ends_word
script_goto_targets-IsCall script =
    All-distinct_from (IsCall script) [] (goto_targets false zero script)
      (goto_targets_sound script [] false zero script refl refl)

-- The targets of a script are the name in its first call, which no other call starts in front of,
-- and the targets of what stands behind that call.
pub script_goto_targets_from :
    (before call name rest x : Text)
    → ends_word false before ≡ false
    → IsMatch call name rest
    → IsFirst false before call
    → has_text (script_goto_targets (before ++ call)) x
      ≡ ((name =ₜ x) || has_text (script_goto_targets rest) x)
unfolding script_goto_targets has_text
script_goto_targets_from before call name rest x b m f =
    let found = goto_targets_leftmost false before call name rest b m f in
    has_text-distinct_from [] (goto_targets false zero (before ++ call)) x
    ∙ ap (λ ts. has_text ts x) found
    ∙ ap (λ r. (name =ₜ x) || r) (sym (has_text-distinct_from [] (goto_targets false zero rest) x))
