-- ===== src/Graph/Script/Found/Tests.antt =====
-- Scripts with calls of `goto`.
use benis_phone.Common.{false, ◌||◌, ◌++◌, ap, sym, ◌∙◌, arith, All, ◌≡◌, refl, [], ◌∷◌}
use benis_phone.Common.Text.{Text, codes, ◌=ₜ◌, has_text}
use benis_phone.Graph.Script.{script_goto_targets}
use benis_phone.Graph.Script.Found.{IsCall, script_goto_targets-IsCall, script_goto_targets_from}
use benis_phone.Graph.Script.Found.Matches.{IsMatch, ends_word}
use benis_phone.Graph.Script.Found.Leftmost.{IsFirst, not_nil}
use mathlib.Core.List.{tail-eq_of_cons-eq, head-eq_of_cons-eq}

-- A call that is spaced out and one that comes twice; none of another function, with two kinds of
-- quotes or with a name that is not literal.
targets_of_script :
    script_goto_targets
      (codes "goto( 'a' ); xgoto('b'); goto ('c\"); goto(d); x.goto(\"e\") || goto('a')")
    ≡ codes "a" ∷ codes "e" ∷ []
unfolding script_goto_targets codes ◌=ₜ◌ has_text
targets_of_script = refl

abbrev script : Text
script = codes "if (again) goto ('bar')"

script_goto_targets-IsCall_example : All (IsCall script) (script_goto_targets script)
script_goto_targets-IsCall_example = script_goto_targets-IsCall script

abbrev call : Text
call = codes "goto ('bar'); goto('b')"

call-IsMatch : IsMatch call (codes "bar") (codes "); goto('b')")
unfolding codes
call-IsMatch = record {
  gap = 32 ∷ [];
  gap' = [];
  quote = 39;
  whole = refl;
  blank = (refl, tt);
  blank' = tt;
  opened = refl;
  plain = (refl, (refl, (refl, tt)));
  given = not_nil 98 (codes "ar");
}

call-IsFirst : IsFirst false (codes ";") call
unfolding codes IsFirst
call-IsFirst [] b' e n k name rest m =
    let start = ap (λ x. x ++ call) e ∙ m.whole in
    let same : 59 ≡ 103 = head-eq_of_cons-eq start in omega (arith, same)
call-IsFirst (c ∷ []) b' e n k name rest m = n (sym (tail-eq_of_cons-eq e))
call-IsFirst (c ∷ d ∷ b) b' e n k name rest m = not_nil d (b ++ b') (sym (tail-eq_of_cons-eq e))

boundary : ends_word false (codes ";") ≡ false
unfolding ends_word codes
boundary = refl

script_goto_targets_from_example :
    has_text (script_goto_targets (codes ";" ++ call)) (codes "b") ≡ (
      (codes "bar" =ₜ codes "b")
      || has_text (script_goto_targets (codes "); goto('b')")) (codes "b"))
script_goto_targets_from_example =
    script_goto_targets_from (codes ";") call (codes "bar") (codes "); goto('b')") (codes "b")
      boundary call-IsMatch call-IsFirst
