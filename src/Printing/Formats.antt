-- ===== src/Printing/Formats.antt =====
-- Formats as sequences of pieces, and what `printf` writes for them.
use mathlib.Core.Path.{fun_ext}
use os182_ass.Prelude.{
  ◌==◌, if◌then◌else◌, ℕ, ◌+◌, ◌%◌, ◌^◌, ◌≡◌, ap, ap₂, ◌∙◌, ◌≢◌, Bool, List, [], ◌∷◌, ◌++◌, arith,
}
use os182_ass.Printing.Numeral.{numeral, signed_numeral}
use os182_ass.Printing.{null_text}

-- A piece of a format: a byte, or a percent sign with a letter.
pub data Piece : Type 0 where
  plain : ℕ → Piece
  decimal hexadecimal pointer string character percent : Piece

-- How a piece is written in a format.
abbrev pub spelling : Piece → List ℕ
spelling (plain c) = c ∷ []
spelling decimal = 37 ∷ 100 ∷ []
spelling hexadecimal = 37 ∷ 120 ∷ []
spelling pointer = 37 ∷ 112 ∷ []
spelling string = 37 ∷ 115 ∷ []
spelling character = 37 ∷ 99 ∷ []
spelling percent = 37 ∷ 37 ∷ []

abbrev pub takes : Bool → Piece → ℕ
takes chars (plain c) = 0
takes chars percent = 0
takes chars decimal = 1
takes chars hexadecimal = 1
takes chars pointer = 1
takes chars string = 1
takes chars character = if chars then 1 else 0

-- What a piece stands for, with the word that it takes; `chars` says that `%c` is known.
abbrev pub shows : ℕ → Bool → (ℕ → List ℕ) → ℕ → Piece → List ℕ
shows letter chars str w (plain c) = c ∷ []
shows letter chars str w decimal = signed_numeral letter w
shows letter chars str w hexadecimal = numeral letter 16 32 w
shows letter chars str w pointer = numeral letter 16 32 w
shows letter chars str w string = if w == 0 then null_text else str w
shows letter chars str w character = if chars then w % 2 ^ 8 ∷ [] else 37 ∷ 99 ∷ []
shows letter chars str w percent = 37 ∷ []

unfoldable pub format : List Piece → List ℕ
format [] = []
format (p ∷ ps) = spelling p ++ format ps

unfoldable pub render : ℕ → Bool → (ℕ → List ℕ) → (ℕ → ℕ) → List Piece → List ℕ
render letter chars str args [] = []
render letter chars str args (p ∷ ps) =
    shows letter chars str (args 0) p ++ render letter chars str (λ k. args (takes chars p + k)) ps

-- No plain byte is a percent sign.
abbrev pub ArePlain : List Piece → Type 0
ArePlain [] = Unit
ArePlain (plain c ∷ ps) = (c ≢ 37) × ArePlain ps
ArePlain (_ ∷ ps) = ArePlain ps

-- The words behind the first `t` ones.
shift-args :
    (letter : ℕ) (chars : Bool) (args : ℕ → ℕ) (str : ℕ → List ℕ) (ps : List Piece) (k t : ℕ)
    → render letter chars str (λ j. args (k + t + j)) ps
      ≡ render letter chars str (λ j. args (k + (t + j))) ps
shift-args letter chars args str ps k t =
    ap (λ g. render letter chars str g ps) (fun_ext (λ j. ap args (omega arith)))

pub same-args :
    (letter : ℕ) (chars : Bool) (args : ℕ → ℕ) (str : ℕ → List ℕ) (ps : List Piece) (k : ℕ)
    → render letter chars str (λ j. args (k + j)) ps
      ≡ render letter chars str (λ j. args (k + (0 + j))) ps
same-args letter chars args str ps k =
    ap (λ g. render letter chars str g ps) (fun_ext (λ j. ap args (omega arith)))

-- The first word.
first-arg : (args : ℕ → ℕ) (k : ℕ) → args k ≡ args (k + 0)
first-arg args k = ap args (omega arith)

-- A directive that takes a word, before the rest.
pub one_word :
    (letter : ℕ) (chars : Bool) (args : ℕ → ℕ) (str : ℕ → List ℕ) (ps : List Piece) (k : ℕ)
    (f : ℕ → List ℕ) {out : List ℕ}
    → out ≡ render letter chars str (λ j. args (k + 1 + j)) ps
    → f (args k) ++ out ≡ f (args (k + 0)) ++ render letter chars str (λ j. args (k + (1 + j))) ps
one_word letter chars args str ps k f e =
    ap₂ (λ w out. f w ++ out) (first-arg args k) (e ∙ shift-args letter chars args str ps k 1)
