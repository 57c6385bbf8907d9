-- ===== src/Printing/Kernel.antt =====
-- `cprintf` of the kernel on formats.
use mathlib.Core.Path.{fun_ext}
use os182_ass.Prelude.{◌==◌, ℕ, ◌+◌, ◌≡◌, refl, ap, ◌∙◌, ◌≢◌, false, List, [], ◌∷◌, ◌++◌, arith}
use os182_ass.Printing.Numeral.{printint-signed, printint-unsigned}
use os182_ass.Printing.{lower, kernel_directive, cprintf_loop, cprintf}
use os182_ass.Printing.Formats.{
  Piece, plain, decimal, hexadecimal, pointer, string, character, percent, format, shows, ArePlain,
  render, one_word, same-args,
}

cprintf_loop-plain :
    (args : ℕ → ℕ) (str : ℕ → List ℕ) (c : ℕ) (fmt : List ℕ) (k : ℕ)
    → c ≢ 37
    → cprintf_loop args str (c ∷ fmt) k ≡ c ∷ cprintf_loop args str fmt k
unfolding cprintf_loop
cprintf_loop-plain args str c [] k other = ground (arith, other)
cprintf_loop-plain args str c (d ∷ fmt) k other =
    let no_percent : (c == 37) ≡ false = ground (arith, other) in rw (no_percent, cprintf_loop) refl

kernel-render :
    (args : ℕ → ℕ) (str : ℕ → List ℕ) (ps : List Piece) (k : ℕ)
    → ArePlain ps
    → cprintf_loop args str (format ps) k ≡ render lower false str (λ j. args (k + j)) ps
unfolding cprintf_loop format render kernel_directive
kernel-render args str [] k plain_ps = refl
kernel-render args str (plain c ∷ ps) k plain_ps =
    cprintf_loop-plain args str c (format ps) k plain_ps.0
    ∙ ap (λ out. c ∷ out)
        (kernel-render args str ps k plain_ps.1 ∙ same-args lower false args str ps k)
kernel-render args str (decimal ∷ ps) k plain_ps =
    ap (λ t. t ++ cprintf_loop args str (format ps) (k + 1)) (printint-signed lower (args k))
    ∙ one_word lower false args str ps k (λ w. shows lower false str w decimal)
        (kernel-render args str ps (k + 1) plain_ps)
kernel-render args str (hexadecimal ∷ ps) k plain_ps =
    ap (λ t. t ++ cprintf_loop args str (format ps) (k + 1)) (printint-unsigned lower (args k))
    ∙ one_word lower false args str ps k (λ w. shows lower false str w hexadecimal)
        (kernel-render args str ps (k + 1) plain_ps)
kernel-render args str (pointer ∷ ps) k plain_ps =
    ap (λ t. t ++ cprintf_loop args str (format ps) (k + 1)) (printint-unsigned lower (args k))
    ∙ one_word lower false args str ps k (λ w. shows lower false str w pointer)
        (kernel-render args str ps (k + 1) plain_ps)
kernel-render args str (string ∷ ps) k plain_ps =
    one_word lower false args str ps k (λ w. shows lower false str w string)
      (kernel-render args str ps (k + 1) plain_ps)
kernel-render args str (character ∷ ps) k plain_ps =
    ap (λ out. 37 ∷ 99 ∷ out)
      (kernel-render args str ps k plain_ps ∙ same-args lower false args str ps k)
kernel-render args str (percent ∷ ps) k plain_ps =
    ap (λ out. 37 ∷ out)
      (kernel-render args str ps k plain_ps ∙ same-args lower false args str ps k)

-- `cprintf` writes the same, with small letters for hexadecimal digits, but `%c` it writes as it is,
-- and leaves its word to the next directive.
pub cprintf_lem :
    (ps : List Piece) (args : ℕ → ℕ) (str : ℕ → List ℕ)
    → ArePlain ps
    → cprintf (format ps) args str ≡ render lower false str args ps
unfolding cprintf
cprintf_lem ps args str plain_ps =
    kernel-render args str ps 0 plain_ps
    ∙ ap (λ g. render lower false str g ps) (fun_ext (λ j. ap args (omega arith)))
