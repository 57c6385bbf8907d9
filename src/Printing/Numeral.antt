-- ===== src/Printing/Numeral.antt =====
-- Numbers as text, by their digits from the first one on, and what printint writes.
use mathlib.Core.List.{append-nil}
use os182_ass.Prelude.{
  ltb, leb, ◌==◌, if◌then◌else◌, Bool-cases, ℕ, zero, suc, ◌-◌, ◌/◌, ◌%◌, ◌^◌, ◌<◌, ◌≡◌, refl, ap,
  ◌∙◌, inl, inr, true, false, List, [], ◌∷◌, ◌++◌, map, arith,
}
use os182_ass.Printing.{digit_char, digit_loop, backwards, printint}

-- The digits of `x`, of which there are at most `n`: those of `x / base`, and then the last one.
unfoldable pub numeral : ℕ → ℕ → ℕ → ℕ → List ℕ
numeral letter base zero x = []
numeral letter base (suc n) x =
    let front = numeral letter base n (x / base) in
    if ltb x base then digit_char letter x ∷ [] else front ++ digit_char letter (x % base) ∷ []

-- An `int`, with a minus sign when it is negative.
abbrev pub signed_numeral : ℕ → ℕ → List ℕ
signed_numeral letter w =
    if leb (2 ^ 31) w then 45 ∷ numeral letter 10 32 (2 ^ 32 - w) else numeral letter 10 32 w

backwards-snoc : (xs : List ℕ) (c : ℕ) → backwards (xs ++ c ∷ []) ≡ c ∷ backwards xs
unfolding backwards
backwards-snoc [] c = refl
backwards-snoc (x ∷ xs) c = ap (λ l. l ++ x ∷ []) (backwards-snoc xs c)

backwards-digits :
    (letter base n x : ℕ)
    → ((y : ℕ) → (y / base == 0) ≡ ltb y base)
    → ((y : ℕ) → y < base → y % base ≡ y)
    → backwards (map (digit_char letter) (digit_loop n base x)) ≡ numeral letter base n x
unfolding backwards digit_loop numeral
backwards-digits letter base zero x one low = refl
backwards-digits letter base (suc n) x one low = elim (Bool-cases (ltb x base)) [
  | inl small ↦
      let here : x % base ≡ x = low x (ground (arith, small)) in rw (one x, small, here) refl
  | inr more ↦
      rw (one x, more)
        (ap (λ l. l ++ digit_char letter (x % base) ∷ [])
          (backwards-digits letter base n (x / base) one low))
]

decimal_text :
    (letter x : ℕ)
    → backwards (map (digit_char letter) (digit_loop 32 10 x)) ≡ numeral letter 10 32 x
decimal_text letter x =
    backwards-digits letter 10 32 x (λ y. ground arith) (λ y lt. omega (arith, lt))

pub printint-signed : (letter w : ℕ) → printint letter w 10 true ≡ signed_numeral letter w
unfolding printint
printint-signed letter w = elim (Bool-cases (leb (2 ^ 31) w)) [
  | inl negative ↦ rw (negative) (
      backwards-snoc (map (digit_char letter) (digit_loop 32 10 (2 ^ 32 - w))) 45
      ∙ ap (λ l. 45 ∷ l) (decimal_text letter (2 ^ 32 - w)))
  | inr positive ↦ rw (positive) (
      ap backwards (append-nil (map (digit_char letter) (digit_loop 32 10 w)))
      ∙ decimal_text letter w)
]

pub printint-unsigned : (letter w : ℕ) → printint letter w 16 false ≡ numeral letter 16 32 w
unfolding printint
printint-unsigned letter w =
    ap backwards (append-nil (map (digit_char letter) (digit_loop 32 16 w)))
    ∙ backwards-digits letter 16 32 w (λ y. ground arith) (λ y lt. omega (arith, lt))
