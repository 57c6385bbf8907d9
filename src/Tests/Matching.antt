-- ===== src/Tests/Matching.antt =====
-- The expression `ab*c` and texts.
use os182_ass.Prelude.{ℕ, ◌≡◌, refl, ◌↔◌, true, false, List, [], ◌∷◌}
use os182_ass.Grep.{matchstar, match_one, matchhere, match_loop, match}
use os182_ass.Grep.Meaning.{Matches, match-Matches}

abbrev expression : List ℕ
expression = 97 ∷ 98 ∷ 42 ∷ 99 ∷ []

abbrev text : List ℕ
text = 120 ∷ 97 ∷ 98 ∷ 98 ∷ 99 ∷ []

match_test : match expression text ≡ true
unfolding match match_loop matchhere matchstar match_one
match_test = refl

match_test_no : match expression (97 ∷ 98 ∷ []) ≡ false
unfolding match match_loop matchhere matchstar match_one
match_test_no = refl

match-Matches_example : (match expression text ≡ true) ↔ Matches expression text
match-Matches_example = match-Matches expression text
