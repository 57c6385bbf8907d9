-- ===== src/Grep.antt =====
-- The matcher of grep.c. A string is the list of its bytes before the null byte.
pub mod Meaning
use os182_ass.Prelude.{◌==◌, if◌then◌else◌, ℕ, Bool, true, false, ◌||◌, List, [], ◌∷◌}

-- The bytes `^`, `$`, `*` and `.`
abbrev pub caret : ℕ
caret = 94

abbrev pub dollar : ℕ
dollar = 36

abbrev pub asterisk : ℕ
asterisk = 42

abbrev pub dot : ℕ
dot = 46

-- `re[0]=='.' || re[0]==*text`
abbrev pub fits : ℕ → ℕ → Bool
fits c x = (c == dot) || (c == x)

-- The loop of `matchstar`; `here` is `matchhere` of the rest of the expression.
unfoldable pub matchstar : ℕ → (List ℕ → Bool) → List ℕ → Bool
matchstar c here [] = here []
matchstar c here (x ∷ text) =
    let rest = matchstar c here text in
    if here (x ∷ text) then true else if (x == c) || (c == dot) then rest else false

-- `if(*text!='\0' && (re[0]=='.' || re[0]==*text)) return matchhere(re+1, text+1)`
unfoldable pub match_one : ℕ → (List ℕ → Bool) → List ℕ → Bool
match_one c here [] = false
match_one c here (x ∷ text) = if fits c x then here text else false

abbrev pub is_empty : List ℕ → Bool
is_empty [] = true
is_empty (x ∷ text) = false

unfoldable pub matchhere : List ℕ → List ℕ → Bool
matchhere [] text = true
matchhere (c ∷ []) text = if c == dollar then is_empty text else match_one c (matchhere []) text
matchhere (c ∷ d ∷ re) text =
    if d == asterisk then matchstar c (matchhere re) text else match_one c (matchhere (d ∷ re)) text

-- The loop of `match`.
unfoldable pub match_loop : List ℕ → List ℕ → Bool
match_loop re [] = matchhere re []
match_loop re (x ∷ text) =
    let rest = match_loop re text in if matchhere re (x ∷ text) then true else rest

unfoldable pub match : List ℕ → List ℕ → Bool
match [] text = match_loop [] text
match (c ∷ re) text = if c == caret then matchhere re text else match_loop (c ∷ re) text
