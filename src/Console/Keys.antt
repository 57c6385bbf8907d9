-- ===== src/Console/Keys.antt =====
-- `consoleintr` of console.c as an editor of one line.
use os182_ass.Prelude.{
  ltb, ◌==◌, if◌then◌else◌, Bool-cases, length, length-append, ℕ, zero, suc, ◌+◌, ◌-◌, ◌%◌, ◌^◌,
  ◌≤◌, ◌<◌, ◌≡◌, refl, ◌∙◌, ◌≢◌, inl, inr, Bool, false, not, ◌&&◌, ◌||◌, List, [], ◌∷◌, ◌++◌, arith,
}
use os182_ass.Console.{
  input_buf, Input, down, up, control, kill_line, erase, put_char, newline, commit_line, key,
  consoleintr,
}
use os182_ass.Console.Line.{
  reverse, Buffers, Shows, Held-stored, Before-stored, Held-line, length-reverse,
}

-- What a reader may take, and the edited line with its last byte first.
abbrev Text : Type 0
Text = List ℕ × List ℕ

abbrev shorter : List ℕ → List ℕ
shorter [] = []
shorter (x ∷ xs) = xs

-- The byte `c` is added to the line; a newline, Control-D and the last free place end it.
abbrev pub entered : ℕ → List ℕ → List ℕ → Text
entered c ready line =
    if (c == 10) || (c == control 68) || (length ready + length (c ∷ line) == input_buf)
    then (ready ++ reverse (c ∷ line), [])
    else (ready, c ∷ line)

-- The editor: Control-P is no key of it, Control-U empties the line, Control-H and DEL take back its
-- last byte, and any other key but 0 is added, with a newline for a carriage return.
abbrev pub typed : ℕ → List ℕ → List ℕ → Text
typed c ready line =
    if c == control 80
    then (ready, line)
    else if c == control 85
    then (ready, [])
    else if (c == control 72) || (c == 127)
    then (ready, shorter line)
    else if not (c == 0) && ltb (length ready + length line) input_buf
    then entered (newline c) ready line
    else (ready, line)

abbrev pub all_typed : List ℕ → List ℕ → List ℕ → Text
all_typed [] ready line = (ready, line)
all_typed (c ∷ cs) ready line = all_typed cs (typed c ready line).0 (typed c ready line).1

abbrev IsText : Input → Text → Type 0
IsText i t = Shows i t.0 t.1

module _ {i : Input} {ready : List ℕ} where
  empty_iff : (line : List ℕ) → Buffers i ready line → (i.e == i.w) ≡ (length line == 0)
  empty_iff line b = ground (arith, b.write_index, b.edit_index, b.room)

  busy : (x : ℕ) (xs : List ℕ) → Buffers i ready (x ∷ xs) → (i.e == i.w) ≡ false
  busy x xs b = empty_iff (x ∷ xs) b ∙ ground arith

  shorter-Shows :
      (x : ℕ) (xs : List ℕ) → Shows i ready (x ∷ xs) → Shows (record i { e = down i.e }) ready xs
  shorter-Shows x xs (b, plain) = (
    record {
      read_word = b.read_word;
      write_index = b.write_index;
      edit_index = omega (arith, b.edit_index);
      room = omega (arith, b.room);
      held = b.held;
      edited = b.edited.1;
    },
    plain.1,
  )

  erase-Shows : (line : List ℕ) → Shows i ready line → Shows (erase i) ready (shorter line)
  erase-Shows [] s = rw (empty_iff [] s.0) s
  erase-Shows (x ∷ xs) s = rw (busy x xs s.0) (shorter-Shows x xs s)

  put_char-Buffers :
      (c : ℕ) (line : List ℕ)
      → Buffers i ready line
      → length ready + length line < input_buf
      → Buffers (put_char c i) ready (c ∷ line)
  unfolding put_char
  put_char-Buffers c line b lt = record {
    read_word = b.read_word;
    write_index = b.write_index;
    edit_index = omega (arith, b.edit_index);
    room = omega (arith, lt);
    held =
        Held-stored i.buf i.r (i.e % input_buf) c ready
          (λ j l same. omega (arith, same, l, lt, b.edit_index)) b.held;
    edited =
        let back : down (up i.e) ≡ i.e = omega (arith, b.edit_index) in
        rw (back) (
          ground arith,
          Before-stored i.buf i.e (i.e % input_buf) c line (omega (arith, b.edit_index))
              (λ j l same. omega (arith, same, l, lt, b.room)) (omega (arith, lt)) b.edited,
        );
  }

  commit-Shows :
      (line : List ℕ)
      → Buffers i ready line
      → Shows (record i { w = i.e }) (ready ++ reverse line) []
  commit-Shows line b =
      let count = length-append ready (reverse line) in
      let same = length-reverse line in
      (
        record {
          read_word = b.read_word;
          write_index = omega (arith, b.edit_index, count, same);
          edit_index = omega (arith, b.edit_index, count, same);
          room = omega (arith, b.room, count, same);
          held = Held-line i.buf i.r i.e ready line b.edit_index b.held b.edited;
          edited = tt;
        },
        tt,
      )

kill_line-Shows :
    (rounds : ℕ) (i : Input) (ready line : List ℕ)
    → length line ≤ rounds
    → Shows i ready line
    → Shows (kill_line rounds i) ready []
unfolding kill_line
kill_line-Shows zero i ready [] le s = s
kill_line-Shows zero i ready (x ∷ xs) le s = absurd (omega (arith, le))
kill_line-Shows (suc rounds) i ready [] le s = rw (empty_iff [] s.0) s
kill_line-Shows (suc rounds) i ready (x ∷ xs) le s =
    let last : (i.buf (down i.e % input_buf) == 10) ≡ false = ground (arith, s.0.edited.0, s.1.0) in
    rw (busy x xs s.0, last)
      (kill_line-Shows rounds (record i { e = down i.e }) ready xs (omega (arith, le))
        (shorter-Shows x xs s))

full_iff :
    (i : Input) (ready line : List ℕ)
    → Buffers i ready line
    → (i.e == (i.r + input_buf) % 2 ^ 32) ≡ (length ready + length line == input_buf)
full_iff i ready line b = ground (arith, b.edit_index, b.room, b.read_word)

used :
    (i : Input) (ready line : List ℕ)
    → Buffers i ready line
    → (i.e + 2 ^ 32 - i.r) % 2 ^ 32 ≡ length ready + length line
used i ready line b = omega (arith, b.edit_index, b.room, b.read_word)

-- The test at the end, by its value.
commit_line-test :
    (c : ℕ) (i : Input) {full ends : Bool}
    → (i.e == (i.r + input_buf) % 2 ^ 32) ≡ full
    → ((c == 10) || (c == control 68) || full) ≡ ends
    → commit_line c i ≡ (if ends then record i { w = i.e } else i)
unfolding commit_line
commit_line-test c i full ends = rw (full, ends, commit_line) refl

no_newline : (c : ℕ) (a b : Bool) → ((c == 10) || a || b) ≡ false → c ≢ 10
no_newline c a b e same = absurd (ground (arith, e, same))

entered-Shows :
    (c : ℕ) (i : Input) (ready line : List ℕ)
    → Shows i ready line
    → length ready + length line < input_buf
    → IsText (commit_line c (put_char c i)) (entered c ready line)
entered-Shows c i ready line s lt =
    let b = put_char-Buffers c line s.0 lt in
    let full = full_iff (put_char c i) ready (c ∷ line) b in
    elim (Bool-cases
      ((c == 10) || (c == control 68) || (length ready + length (c ∷ line) == input_buf))) [
        | inl ends ↦
            rw (commit_line-test c (put_char c i) full ends, ends) (commit-Shows (c ∷ line) b)
        | inr goes_on ↦
            rw (commit_line-test c (put_char c i) full goes_on, goes_on)
              (
                b,
                (
                  no_newline c (c == control 68) (length ready + length (c ∷ line) == input_buf)
                      goes_on,
                  s.1,
                ),
              )
      ]

-- A key that is no command.
default-Shows :
    (c : ℕ) (i : Input) (ready line : List ℕ)
    → Shows i ready line
    → IsText
        (if not (c == 0) && ltb ((i.e + 2 ^ 32 - i.r) % 2 ^ 32) input_buf
          then commit_line (newline c) (put_char (newline c) i)
          else i)
        (if not (c == 0) && ltb (length ready + length line) input_buf
          then entered (newline c) ready line
          else (ready, line))
default-Shows c i ready line s =
    elim (Bool-cases (not (c == 0) && ltb (length ready + length line) input_buf)) [
      | inl taken ↦
          rw (used i ready line s.0, taken)
            (entered-Shows (newline c) i ready line s (ground (arith, taken)))
      | inr dropped ↦ rw (used i ready line s.0, dropped) s
    ]

key-Shows :
    (c : ℕ) (i : Input) (ready line : List ℕ)
    → Shows i ready line
    → IsText (key c i) (typed c ready line)
unfolding key
key-Shows c i ready line s = elim (Bool-cases (c == control 80)) [
  | inl listing ↦ rw (listing, key) s
  | inr a ↦ elim (Bool-cases (c == control 85)) [
    | inl kills ↦
        rw (a, kills, key) (kill_line-Shows input_buf i ready line (omega (arith, s.0.room)) s)
    | inr b ↦ elim (Bool-cases ((c == control 72) || (c == 127))) [
      | inl back ↦ rw (a, b, back, key) (erase-Shows line s)
      | inr d ↦ rw (a, b, d, key) (default-Shows c i ready line s)
    ]
  ]
]

-- On a buffer that holds some bytes for readers and a line that is edited, `consoleintr` does to them
-- what the editor does key by key: the buffer holds its result, in at most INPUT_BUF bytes.
pub consoleintr_lem :
    (cs : List ℕ) (i : Input) (ready line : List ℕ)
    → Shows i ready line
    → Shows (consoleintr cs i) (all_typed cs ready line).0 (all_typed cs ready line).1
unfolding consoleintr
consoleintr_lem [] i ready line s = s
consoleintr_lem (c ∷ cs) i ready line s =
    consoleintr_lem cs (key c i) (typed c ready line).0 (typed c ready line).1
      (key-Shows c i ready line s)
