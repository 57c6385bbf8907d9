-- ===== src/Grep/Meaning.antt =====
-- What an expression means, and that the matcher decides it.
use os182_ass.Prelude.{
  ◌==◌, Bool-cases, All, ℕ, ◌≡◌, refl, ap, ◌≢◌, ◌↔◌, ◌⊎◌, inl, inr, Bool, true, false, ◌||◌, List,
  [], ◌∷◌, ◌++◌, arith, ℕ_discrete,
}
use os182_ass.Grep.{
  caret, dollar, asterisk, dot, fits, matchstar, match_one, matchhere, match_loop, match,
}

-- The expression does not begin with a star.
abbrev pub Plain : List ℕ → Type 0
Plain [] = Unit
Plain (d ∷ re) = d ≢ asterisk

-- A text begins with a match of an expression.
pub data Begins : List ℕ → List ℕ → Type 0 where
  nothing : {text : List ℕ} → Begins [] text
  at_end : Begins (dollar ∷ []) []
  one :
      {re text : List ℕ} (c x : ℕ)
      → Plain re
      → (re ≡ [] → c ≢ dollar)
      → fits c x ≡ true
      → Begins re text
      → Begins (c ∷ re) (x ∷ text)
  many :
      {re : List ℕ} (c : ℕ) (front back : List ℕ)
      → All (λ x. fits c x ≡ true) front
      → Begins re back
      → Begins (c ∷ asterisk ∷ re) (front ++ back)

module _ (c : ℕ) (here : List ℕ → Bool) where
  matchstar-some :
      (text : List ℕ)
      → matchstar c here text ≡ true
      → (front back : List ℕ) × (text ≡ front ++ back)
        × All (λ x. fits c x ≡ true) front
        × (here back ≡ true)
  unfolding matchstar
  matchstar-some [] e = ([], [], refl, tt, e)
  matchstar-some (x ∷ text) e = elim (Bool-cases (here (x ∷ text))) [
    | inl h ↦ ([], x ∷ text, refl, tt, h)
    | inr h ↦ elim (Bool-cases ((x == c) || (c == dot))) [
      | inl f ↦
          let (front, back, split, all, m) = matchstar-some text (ground (arith, e, h, f)) in
          (x ∷ front, back, ap (λ l. x ∷ l) split, (ground (arith, f), all), m)
      | inr f ↦ absurd (let no : false ≡ true = ground (arith, e, h, f) in cc)
    ]
  ]

  matchstar-true :
      (front back : List ℕ)
      → All (λ x. fits c x ≡ true) front
      → here back ≡ true
      → matchstar c here (front ++ back) ≡ true
  unfolding matchstar
  matchstar-true [] [] all h = h
  matchstar-true [] (x ∷ back) all h = rw h refl
  matchstar-true (x ∷ front) back all h =
      let f : ((x == c) || (c == dot)) ≡ true = ground (arith, all.0) in
      let rest = matchstar-true front back all.1 h in ground (arith, f, rest)

matchhere-Begins : (re text : List ℕ) → matchhere re text ≡ true → Begins re text
unfolding matchhere match_one
matchhere-Begins [] text e = nothing
matchhere-Begins (c ∷ []) [] e = elim (ℕ_discrete c dollar) [
  | yes d ↦ rw d at_end
  | no d ↦ absurd (let no : false ≡ true = ground (arith, e, d) in cc)
]
matchhere-Begins (c ∷ []) (x ∷ text) e = elim (ℕ_discrete c dollar) [
  | yes d ↦ absurd (let no : false ≡ true = ground (arith, e, d) in cc)
  | no d ↦ one c x tt (λ last. d) (ground (arith, e, d)) nothing
]
matchhere-Begins (c ∷ d ∷ re) [] e = elim (ℕ_discrete d asterisk) [
  | yes star ↦
      let (front, back, split, all, m) =
        matchstar-some c (matchhere re) [] (ground (arith, e, star)) in
      rw (star, split) (many c front back all (matchhere-Begins re back m))
  | no plain ↦ absurd (let no : false ≡ true = ground (arith, e, plain) in cc)
]
matchhere-Begins (c ∷ d ∷ re) (x ∷ text) e = elim (ℕ_discrete d asterisk) [
  | yes star ↦
      let (front, back, split, all, m) =
        matchstar-some c (matchhere re) (x ∷ text) (ground (arith, e, star)) in
      rw (star, split) (many c front back all (matchhere-Begins re back m))
  | no plain ↦ elim (Bool-cases (fits c x)) [
    | inl f ↦
        one c x plain (λ last. absurd cc) f
          (matchhere-Begins (d ∷ re) text (ground (arith, e, plain, f)))
    | inr f ↦ absurd (let no : false ≡ true = ground (arith, e, plain, f) in cc)
  ]
]

Begins-matchhere : {re text : List ℕ} → Begins re text → matchhere re text ≡ true
unfolding matchhere match_one
Begins-matchhere nothing = refl
Begins-matchhere at_end = refl
Begins-matchhere (one {re = []} c x plain last f b) = ground (arith, last refl, f)
Begins-matchhere (one {re = d ∷ re} c x plain last f b) =
    ground (arith, plain, f, Begins-matchhere b)
Begins-matchhere (many {re} c front back all b) =
    matchstar-true c (matchhere re) front back all (Begins-matchhere b)

match_loop-some :
    (re text : List ℕ)
    → match_loop re text ≡ true
    → (front back : List ℕ) × (text ≡ front ++ back) × Begins re back
unfolding match_loop
match_loop-some re [] e = ([], [], refl, matchhere-Begins re [] e)
match_loop-some re (x ∷ text) e = elim (Bool-cases (matchhere re (x ∷ text))) [
  | inl h ↦ ([], x ∷ text, refl, matchhere-Begins re (x ∷ text) h)
  | inr h ↦
      let (front, back, split, b) = match_loop-some re text (ground (arith, e, h)) in
      (x ∷ front, back, ap (λ l. x ∷ l) split, b)
]

match_loop-true : (re front back : List ℕ) → Begins re back → match_loop re (front ++ back) ≡ true
unfolding match_loop
match_loop-true re [] [] b = Begins-matchhere b
match_loop-true re [] (x ∷ back) b = rw (Begins-matchhere b) refl
match_loop-true re (x ∷ front) back b =
    let rest = match_loop-true re front back b in ground (arith, rest)

-- The expression matches somewhere in the text, or at its start if the expression begins with `^`.
abbrev pub Matches : List ℕ → List ℕ → Type 0
Matches re text =
    ((rest : List ℕ) × (re ≡ caret ∷ rest) × Begins rest text)
    ⊎ (((rest : List ℕ) → re ≢ caret ∷ rest)
        × (front back : List ℕ) × (text ≡ front ++ back)
        × Begins re back)

-- `match` says yes exactly where the expression matches the text.
pub match-Matches : (re text : List ℕ) → (match re text ≡ true) ↔ Matches re text
unfolding match
match-Matches re text = (sound re, complete re)
  where
    sound : (re : List ℕ) → match re text ≡ true → Matches re text
    sound [] e =
        let (front, back, split, b) = match_loop-some [] text e in
        inr (λ rest same. cc, front, back, split, b)
    sound (c ∷ re) e = elim (ℕ_discrete c caret) [
      | yes up ↦ inl (re, ap (λ x. x ∷ re) up, matchhere-Begins re text (ground (arith, e, up)))
      | no other ↦
          let (front, back, split, b) = match_loop-some (c ∷ re) text (ground (arith, e, other)) in
          inr (λ rest same. other cc, front, back, split, b)
    ]

    complete : (re : List ℕ) → Matches re text → match re text ≡ true
    complete [] (inl (rest, same, b)) = cc
    complete [] (inr (free, front, back, split, b)) = rw split (match_loop-true [] front back b)
    complete (c ∷ re) (inl (rest, same, b)) =
        let up : c ≡ caret = cc in
        let left : re ≡ rest = cc in let m = Begins-matchhere b in ground (arith, up, left, m)
    complete (c ∷ re) (inr (free, front, back, split, b)) =
        let other : c ≢ caret = λ up. free re (ap (λ x. x ∷ re) up) in
        let m = match_loop-true (c ∷ re) front back b in ground (arith, other, split, m)
