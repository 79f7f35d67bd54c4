-- ===== src/Graph/Script.antt =====
-- `scriptGotoTargets` of ui/src/lib/fn-graph.ts: the menus that a script goes to by a literal
-- `goto("name")`. Where the regular expression matches there is one way to match, so no part of it
-- is tried again; the search goes on behind the match.
mod Found
use benis_phone.Common.{
  ◌>>=◌, ℕ, zero, suc, ◌-◌, String, Bool, true, false, not, ◌&&◌, ◌||◌, Option, none, some, List,
  [], ◌∷◌, if◌then◌else◌, length, ◌==◌,
}
use benis_phone.Common.Text.{Text, codes, is_word_dash, distinct_from, strip_prefix, trim_start}

-- `\w`
abbrev pub is_word : ℕ → Bool
is_word c = is_word_dash c && not (c == b'-')

abbrev pub is_quote : ℕ → Bool
is_quote c = c == 34 || c == 39

-- `[^'"]+` takes all up to the next quote.
unfoldable pub until_quote : Text → Text × Text
until_quote [] = ([], [])
until_quote (c ∷ s) =
    let (t, rest) = until_quote s in if is_quote c then ([], c ∷ s) else (c ∷ t, rest)

-- The quote that closes is the one that opened.
unfoldable pub close_quote : ℕ → Text × Text → Option (Text × Text)
close_quote q ([], rest) = none
close_quote q (c ∷ t, []) = none
close_quote q (c ∷ t, d ∷ rest) = if d == q then some (c ∷ t, rest) else none

unfoldable pub quoted : Text → Option (Text × Text)
unfolding until_quote close_quote
quoted [] = none
quoted (q ∷ s) = let r = close_quote q (until_quote s) in if is_quote q then r else none

-- The name and the text behind a match that starts here.
unfoldable pub goto_at : Text → Option (Text × Text)
unfolding strip_prefix trim_start quoted codes
goto_at s = do
  s1 ← strip_prefix (codes "goto") s
  s2 ← strip_prefix (codes "(") (trim_start s1)
  quoted (trim_start s2)

-- The search behind a unit that is of a word or not, after as many units as the match has left.
unfoldable pub goto_targets : Bool → ℕ → Text → List Text
unfolding goto_at
goto_targets in_word skip [] = []
goto_targets in_word (suc skip) (c ∷ s) = goto_targets (is_word c) skip s
goto_targets in_word zero (c ∷ s) = elim (if in_word then none else goto_at (c ∷ s)) [
  | none ↦ goto_targets (is_word c) zero s
  | some (name, rest) ↦ name ∷ goto_targets (is_word c) (length s - length rest) s
]

unfoldable pub script_goto_targets : Text → List Text
unfolding goto_targets distinct_from
script_goto_targets code = distinct_from [] (goto_targets false zero code)
