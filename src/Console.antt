-- ===== src/Console.antt =====
-- console.c: the line buffer of the console, `input`, with what consoleintr and consoleread do to it.
-- Counters are words that wrap; a byte is a number. What goes to the screen, and the process listing
-- that Control-P asks for, are left out; cons.lock is held throughout a call.
pub mod Line
pub mod Keys
pub mod Reading
use os182_ass.Prelude.{
  ltb, ◌==◌, if◌then◌else◌, ℕ, zero, suc, ◌+◌, ◌-◌, ◌%◌, ◌^◌, Bool, not, ◌&&◌, ◌||◌, List, [], ◌∷◌,
}

-- `INPUT_BUF`
abbrev pub input_buf : ℕ
input_buf = 128

pub record Input : Type 0 where
  pub buf : ℕ → ℕ
  pub r : ℕ
  pub w : ℕ
  pub e : ℕ

-- A counter less one, and more one.
abbrev pub down : ℕ → ℕ
down n = (n + (2 ^ 32 - 1)) % 2 ^ 32

abbrev pub up : ℕ → ℕ
up n = (n + 1) % 2 ^ 32

-- `C('P')`, `C('U')`, `C('H')`, `C('D')`
abbrev pub control : ℕ → ℕ
control x = x - 64

-- The loop of Control-U; the rounds bound the loop, whose test is the code's.
unfoldable pub kill_line : ℕ → Input → Input
kill_line zero i = i
kill_line (suc rounds) i =
    let rest = kill_line rounds (record i { e = down i.e }) in
    if not (i.e == i.w) && not (i.buf (down i.e % input_buf) == 10) then rest else i

abbrev pub erase : Input → Input
erase i = if i.e == i.w then i else record i { e = down i.e }

-- The byte `c` at the edit index.
unfoldable pub put_char : ℕ → Input → Input
put_char c i = record i { buf = λ j. if j == i.e % input_buf then c else i.buf j; e = up i.e }

-- `c = (c == '\r') ? '\n' : c`
abbrev pub newline : ℕ → ℕ
newline c = if c == 13 then 10 else c

-- The end of the default case.
unfoldable pub commit_line : ℕ → Input → Input
commit_line c i =
    if (c == 10) || (c == control 68) || (i.e == (i.r + input_buf) % 2 ^ 32)
    then record i { w = i.e }
    else i

unfoldable pub key : ℕ → Input → Input
key c i =
    if c == control 80
    then i
    else if c == control 85
    then kill_line input_buf i
    else if (c == control 72) || (c == 127)
    then erase i
    else if not (c == 0) && ltb ((i.e + 2 ^ 32 - i.r) % 2 ^ 32) input_buf
    then commit_line (newline c) (put_char (newline c) i)
    else i

-- The characters that `getc` returns, up to a negative one.
unfoldable pub consoleintr : List ℕ → Input → Input
consoleintr [] i = i
consoleintr (c ∷ cs) i = consoleintr cs (key c i)

-- How a run of `consoleread` stops: it returns the number of its bytes, or -1, or it sleeps with bytes
-- left to read.
pub data Stop : Type 0 where
  returns fails : Stop
  sleeps : ℕ → Stop

-- The loop of `consoleread` with `n` bytes left of `target`; it returns the bytes that were read. When
-- nothing is ready, a process that was killed fails and another one sleeps; after a wakeup it goes on
-- from there.
unfoldable pub read_line : Bool → ℕ → ℕ → Input → List ℕ × Stop × Input
read_line killed target zero i = ([], returns, i)
read_line killed target (suc n) i =
    let c = i.buf (i.r % input_buf) in
    let i' = record i { r = up i.r } in
    let rest = read_line killed target n i' in
    if i.r == i.w
    then ([], if killed then fails else sleeps (suc n), i)
    else if c == control 68
    then ([], returns, if ltb (suc n) target then i else i')
    else if c == 10
    then (c ∷ [], returns, i')
    else (c ∷ rest.0, rest.1, rest.2)
