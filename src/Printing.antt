-- ===== src/Printing.antt =====
-- Numbers and formats as text: printf.c of the user library, `printint` and `cprintf` of console.c,
-- and `atoi` of ulib.c. What is written is the list of the bytes; a string is its bytes before the
-- null byte. `args k` is the word at `ap + k`, and `str a` is the string at address `a`.
pub mod Decimal
pub mod Numeral
pub mod Formats
pub mod Kernel
use os182_ass.Prelude.{
  ltb, leb, ◌==◌, if◌then◌else◌, ℕ, zero, suc, ◌+◌, ◌-◌, ◌*◌, ◌/◌, ◌%◌, ◌^◌, Bool, true, false,
  ◌&&◌, ◌||◌, List, [], ◌∷◌, ◌++◌, map,
}

-- `digits[d]`; the letters begin at 'A' in printf.c and at 'a' in console.c.
abbrev pub digit_char : ℕ → ℕ → ℕ
digit_char letter d = if ltb d 10 then 48 + d else letter + (d - 10)

abbrev pub upper : ℕ
upper = 65

abbrev pub lower : ℕ
lower = 97

-- The do loop, with a round for each bit: the digits from the last one on.
unfoldable pub digit_loop : ℕ → ℕ → ℕ → List ℕ
digit_loop zero base x = []
digit_loop (suc rounds) base x =
    let rest = digit_loop rounds base (x / base) in x % base ∷ (if x / base == 0 then [] else rest)

-- `while(--i >= 0) putc(fd, buf[i])`
unfoldable pub backwards : List ℕ → List ℕ
backwards [] = []
backwards (c ∷ buf) = backwards buf ++ (c ∷ [])

-- `printint(fd, xx, base, sgn)` of an int `xx`, taken modulo `2 ^ 32`.
unfoldable pub printint : ℕ → ℕ → ℕ → Bool → List ℕ
printint letter xx base sgn =
    let neg = sgn && leb (2 ^ 31) xx in
    let x = if neg then 2 ^ 32 - xx else xx in
    backwards (map (digit_char letter) (digit_loop 32 base x) ++ (if neg then 45 ∷ [] else []))

-- `n` is an int; the loop ends at the first byte that is no digit.
unfoldable pub atoi_loop : List ℕ → ℕ → ℕ
atoi_loop [] n = n
atoi_loop (c ∷ s) n =
    let rest = atoi_loop s ((n * 10 + (c - 48)) % 2 ^ 32) in
    if leb 48 c && leb c 57 then rest else n

unfoldable pub atoi : List ℕ → ℕ
atoi s = atoi_loop s 0

-- "(null)"
abbrev pub null_text : List ℕ
null_text = 40 ∷ 110 ∷ 117 ∷ 108 ∷ 108 ∷ 41 ∷ []

-- What a `%` with the byte `c` behind it writes, and the next argument.
unfoldable pub directive : ℕ → (ℕ → ℕ) → (ℕ → List ℕ) → ℕ → ℕ → List ℕ × ℕ
directive letter args str c k =
    if c == 100
    then (printint letter (args k) 10 true, k + 1)
    else if (c == 120) || (c == 112)
    then (printint letter (args k) 16 false, k + 1)
    else if c == 115
    then (if args k == 0 then null_text else str (args k), k + 1)
    else if c == 99
    then (args k % 2 ^ 8 ∷ [], k + 1)
    else if c == 37
    then (37 ∷ [], k)
    else (37 ∷ c ∷ [], k)

-- `state`: 0, or '%' behind a percent sign.
pub data FormatState : Type 0 where
  in_text in_percent : FormatState

unfoldable pub printf_loop : ℕ → (ℕ → ℕ) → (ℕ → List ℕ) → FormatState → List ℕ → ℕ → List ℕ
printf_loop letter args str state [] k = []
printf_loop letter args str in_text (c ∷ fmt) k = elim (c == 37) [
  | true ↦ printf_loop letter args str in_percent fmt k
  | false ↦ c ∷ printf_loop letter args str in_text fmt k
]
printf_loop letter args str in_percent (c ∷ fmt) k =
    (directive letter args str c k).0
    ++ printf_loop letter args str in_text fmt (directive letter args str c k).1

unfoldable pub printf : List ℕ → (ℕ → ℕ) → (ℕ → List ℕ) → List ℕ
printf fmt args str = printf_loop upper args str in_text fmt 0

-- `printint` of console.c
abbrev pub kernel_printint : ℕ → ℕ → Bool → List ℕ
kernel_printint xx base sign = printint lower xx base sign

-- The same for the switch of `cprintf`, which knows no `%c`.
unfoldable pub kernel_directive : (ℕ → ℕ) → (ℕ → List ℕ) → ℕ → ℕ → List ℕ × ℕ
kernel_directive args str c k =
    if c == 100
    then (kernel_printint (args k) 10 true, k + 1)
    else if (c == 120) || (c == 112)
    then (kernel_printint (args k) 16 false, k + 1)
    else if c == 115
    then (if args k == 0 then null_text else str (args k), k + 1)
    else if c == 37
    then (37 ∷ [], k)
    else (37 ∷ c ∷ [], k)

-- The loop of `cprintf`; a percent sign at the end ends it.
unfoldable pub cprintf_loop : (ℕ → ℕ) → (ℕ → List ℕ) → List ℕ → ℕ → List ℕ
cprintf_loop args str [] k = []
cprintf_loop args str (c ∷ []) k = if c == 37 then [] else c ∷ []
cprintf_loop args str (c ∷ d ∷ fmt) k = elim (c == 37) [
  | true ↦
      (kernel_directive args str d k).0
      ++ cprintf_loop args str fmt (kernel_directive args str d k).1
  | false ↦ c ∷ cprintf_loop args str (d ∷ fmt) k
]

unfoldable pub cprintf : List ℕ → (ℕ → ℕ) → (ℕ → List ℕ) → List ℕ
cprintf fmt args str = cprintf_loop args str fmt 0
