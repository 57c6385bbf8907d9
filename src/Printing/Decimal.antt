-- ===== src/Printing/Decimal.antt =====
-- The digits of a number, and reading them again.
use mathlib.Core.List.{append-nil}
use native.Mathlib.Nat.{pow-suc}
use os182_ass.Prelude.{
  leb, ◌==◌, Bool-cases, ℕ, zero, suc, ◌+◌, ◌-◌, ◌*◌, ◌/◌, ◌%◌, ◌^◌, ◌≤◌, ◌<◌, ◌≡◌, refl, ap, ◌∙◌,
  inl, inr, true, false, ◌&&◌, List, [], ◌∷◌, ◌++◌, map, arith, ℕ_discrete,
}
use os182_ass.Printing.{digit_char, digit_loop, backwards, printint, atoi_loop, atoi, upper}

-- The number with these digits, the last one first.
abbrev low_value : List ℕ → ℕ
low_value [] = 0
low_value (d ∷ ds) = d + 10 * low_value ds

abbrev AreDigits : List ℕ → Type 0
AreDigits [] = Unit
AreDigits (d ∷ ds) = (d < 10) × AreDigits ds

digit_loop-value : (rounds x : ℕ) → x < 2 ^ rounds → low_value (digit_loop rounds 10 x) ≡ x
unfolding digit_loop
digit_loop-value zero x lt = omega (arith, lt)
digit_loop-value (suc rounds) x lt =
    let small : x / 10 < 2 ^ rounds = omega (arith, lt, pow-suc 2 rounds) in
    let ih = digit_loop-value rounds (x / 10) small in
    elim (ℕ_discrete (x / 10) 0) [
      | yes last ↦ let e : (x / 10 == 0) ≡ true = ground (arith, last) in rw e (omega (arith, last))
      | no more ↦
          let e : (x / 10 == 0) ≡ false = ground (arith, more) in
          rw e (omega (arith, ap (λ (t : ℕ). 10 * t) ih))
    ]

digit_loop-AreDigits : (rounds x : ℕ) → AreDigits (digit_loop rounds 10 x)
unfolding digit_loop
digit_loop-AreDigits zero x = tt
digit_loop-AreDigits (suc rounds) x =
    let ih = digit_loop-AreDigits rounds (x / 10) in
    elim (Bool-cases (x / 10 == 0)) [
      | inl e ↦ rw e (omega arith, tt)
      | inr e ↦ rw e (omega arith, ih)
    ]

-- The bytes are all decimal digits.
abbrev AreChars : List ℕ → Type 0
AreChars [] = Unit
AreChars (c ∷ s) = (48 ≤ c) × (c ≤ 57) × AreChars s

AreChars-append : (s t : List ℕ) → AreChars s → AreChars t → AreChars (s ++ t)
AreChars-append [] t a b = b
AreChars-append (c ∷ s) t a b = (a.0, a.1, AreChars-append s t a.2 b)

AreChars-backwards : (ds : List ℕ) → AreDigits ds → AreChars (backwards (map (digit_char upper) ds))
unfolding backwards
AreChars-backwards [] a = tt
AreChars-backwards (d ∷ ds) a =
    let lt = a.0 in
    AreChars-append (backwards (map (digit_char upper) ds)) (digit_char upper d ∷ [])
      (AreChars-backwards ds a.1) (ground (arith, lt), ground (arith, lt), tt)

atoi_loop-last :
    (s : List ℕ) (n c : ℕ)
    → AreChars s
    → 48 ≤ c
    → c ≤ 57
    → atoi_loop (s ++ (c ∷ [])) n ≡ (atoi_loop s n * 10 + (c - 48)) % 2 ^ 32
unfolding atoi_loop
atoi_loop-last [] n c a lo hi = ground (arith, lo, hi)
atoi_loop-last (d ∷ s) n c a lo hi =
    let digit : (leb 48 d && leb d 57) ≡ true = ground (arith, a.0, a.1) in
    rw digit (atoi_loop-last s ((n * 10 + (d - 48)) % 2 ^ 32) c a.2 lo hi)

atoi-backwards :
    (ds : List ℕ)
    → AreDigits ds
    → low_value ds < 2 ^ 32
    → atoi (backwards (map (digit_char upper) ds)) ≡ low_value ds
unfolding atoi backwards atoi_loop
atoi-backwards [] a lt = refl
atoi-backwards (d ∷ ds) a lt =
    let small : low_value ds < 2 ^ 32 = omega (arith, lt) in
    let ih = atoi-backwards ds a.1 small in
    let dl = a.0 in
    let char : digit_char upper d ≡ 48 + d = ground (arith, dl) in
    let step =
      atoi_loop-last (backwards (map (digit_char upper) ds)) 0 (digit_char upper d)
        (AreChars-backwards ds a.1) (ground (arith, dl)) (ground (arith, dl)) in
    step ∙ omega (arith, ih, lt, char)

-- `atoi` reads back what `printint` writes of an int that is not negative.
pub atoi-printint : (x : ℕ) → x < 2 ^ 31 → atoi (printint upper x 10 true) ≡ x
unfolding printint
atoi-printint x lt =
    let positive : leb (2 ^ 31) x ≡ false = ground (arith, lt) in
    let value = digit_loop-value 32 x (omega (arith, lt)) in
    rw positive (
      ap (λ s. atoi (backwards s)) (append-nil (map (digit_char upper) (digit_loop 32 10 x)))
      ∙ atoi-backwards (digit_loop 32 10 x) (digit_loop-AreDigits 32 x) (omega (arith, lt, value))
      ∙ value)
