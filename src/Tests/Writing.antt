-- ===== src/Tests/Writing.antt =====
-- Numbers and formats.
use os182_ass.Prelude.{ℕ, ◌+◌, ◌-◌, ◌^◌, ◌≡◌, refl, true, false, List, [], ◌∷◌, arith}
use os182_ass.Printing.{
  printint, atoi, printf, printf_loop, directive, upper, lower, digit_loop, backwards,
}
use os182_ass.Printing.Decimal.{atoi-printint}
use os182_ass.Printing.Formats.{Piece, plain, decimal, character, format}

printint_test : printint upper (2 ^ 32 - 31) 10 true ≡ 45 ∷ 51 ∷ 49 ∷ []
unfolding printint digit_loop backwards
printint_test = refl

printint_test_hex : printint lower 0xBEEF 16 false ≡ 98 ∷ 101 ∷ 101 ∷ 102 ∷ []
unfolding printint digit_loop backwards
printint_test_hex = refl

atoi-printint_example : atoi (printint upper 1042 10 true) ≡ 1042
atoi-printint_example = atoi-printint 1042 (omega arith)

-- The format `p%d%c`.
abbrev pieces : List Piece
pieces = plain 112 ∷ decimal ∷ character ∷ []

abbrev words : ℕ → ℕ
words k = 7 + k

abbrev no_strings : ℕ → List ℕ
no_strings a = []

printf_test : printf (format pieces) words no_strings ≡ 112 ∷ 55 ∷ 8 ∷ []
unfolding printf printf_loop directive printint digit_loop backwards format
printf_test = refl
