-- ===== src/Console/Reading.antt =====
-- `consoleread` of console.c on the bytes that are ready.
use os182_ass.Prelude.{
  ltb, ◌==◌, if◌then◌else◌, Bool-cases, length, ℕ, zero, suc, ◌+◌, ◌≡◌, refl, ap, ◌∙◌, inl, inr,
  Bool, false, List, [], ◌∷◌, arith,
}
use os182_ass.Console.{Input, up, control, Stop, returns, fails, sleeps, read_line}
use os182_ass.Console.Line.{Shows, Held-mod}

-- A reader with `n` bytes left of `target` takes the ready bytes up to a newline, or up to a Control-D.
-- It takes the latter, too, unless it has bytes already. When there are no more bytes, it fails if it
-- was killed, and sleeps otherwise.
abbrev pub take_line : Bool → ℕ → ℕ → List ℕ → List ℕ × Stop × List ℕ
take_line killed target zero ready = ([], returns, ready)
take_line killed target (suc n) [] = ([], if killed then fails else sleeps (suc n), [])
take_line killed target (suc n) (c ∷ cs) =
    let rest = take_line killed target n cs in
    if c == control 68
    then ([], returns, if ltb (suc n) target then c ∷ cs else cs)
    else if c == 10
    then (c ∷ [], returns, cs)
    else (c ∷ rest.0, rest.1, rest.2)

module _ {i : Input} {line : List ℕ} where
  empty_iff : (ready : List ℕ) → Shows i ready line → (i.r == i.w) ≡ (length ready == 0)
  empty_iff ready (b, _) = ground (arith, b.write_index, b.room, b.read_word)

  taken-Shows :
      (c : ℕ) (cs : List ℕ) → Shows i (c ∷ cs) line → Shows (record i { r = up i.r }) cs line
  taken-Shows c cs (b, plain) = (
    record {
      read_word = omega arith;
      write_index = omega (arith, b.write_index);
      edit_index = omega (arith, b.edit_index);
      room = omega (arith, b.room);
      held = Held-mod i.buf (i.r + 1) (up i.r) cs (omega arith) b.held.1;
      edited = b.edited;
    },
    plain,
  )

-- A run with the bytes `t.0`, the stop `t.1` and the ready bytes `t.2` left.
abbrev pub Gives : List ℕ × Stop × Input → List ℕ → List ℕ × Stop × List ℕ → Type 0
Gives run line t = (run.0 ≡ t.0) × (run.1 ≡ t.1) × Shows run.2 t.2 line

-- From a buffer that holds some bytes for readers, `consoleread` with `n` bytes left of `target`
-- takes the bytes up to a newline or Control-D and stops as `take_line` says: it returns, or when there
-- are no more it fails for a killed process and sleeps for another; the bytes that it leaves are ready, and the line that is edited is as before.
pub read_line_lem :
    (killed : Bool) (target n : ℕ) (i : Input) (ready line : List ℕ)
    → Shows i ready line
    → Gives (read_line killed target n i) line (take_line killed target n ready)
unfolding read_line
read_line_lem killed target zero i ready line s = (refl, refl, s)
read_line_lem killed target (suc n) i [] line s = rw (empty_iff [] s) (refl, refl, s)
read_line_lem killed target (suc n) i (c ∷ cs) line s =
    let some_byte : (i.r == i.w) ≡ false = empty_iff (c ∷ cs) s ∙ ground arith in
    let s' = taken-Shows c cs s in
    let first = s.0.held.0 in
    elim (Bool-cases (c == control 68)) [
      | inl ends ↦ elim (Bool-cases (ltb (suc n) target)) [
        | inl before ↦ rw (some_byte, first, ends, before) (refl, refl, s)
        | inr at_start ↦ rw (some_byte, first, ends, at_start) (refl, refl, s')
      ]
      | inr goes_on ↦ elim (Bool-cases (c == 10)) [
        | inl newline ↦ rw (some_byte, first, goes_on, newline) (refl, refl, s')
        | inr byte ↦
            let (bytes, stop, left) =
              read_line_lem killed target n (record i { r = up i.r }) cs line s' in
            rw (some_byte, first, goes_on, byte) (ap (λ xs. c ∷ xs) bytes, stop, left)
      ]
    ]
