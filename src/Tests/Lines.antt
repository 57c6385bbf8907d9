-- ===== src/Tests/Lines.antt =====
-- Keys typed at an empty console, and a line that is read.
use os182_ass.Prelude.{◌==◌, if◌then◌else◌, ℕ, ◌≡◌, refl, true, false, List, [], ◌∷◌, arith}
use os182_ass.Console.{
  Input, returns, fails, sleeps, consoleintr, key, kill_line, put_char, commit_line, read_line,
}
use os182_ass.Console.Line.{Shows, reverse}
use os182_ass.Console.Keys.{consoleintr_lem}
use os182_ass.Console.Reading.{Gives, read_line_lem}

abbrev nothing : Input
nothing = record { buf = λ j. 0; r = 0; w = 0; e = 0 }

nothing-Shows : Shows nothing [] []
nothing-Shows = (
  record {
    read_word = omega arith;
    write_index = refl;
    edit_index = refl;
    room = omega arith;
    held = tt;
    edited = tt;
  },
  tt,
)

-- "ab", a backspace, "c" and a carriage return, then "d".
abbrev keys : List ℕ
keys = 97 ∷ 98 ∷ 8 ∷ 99 ∷ 13 ∷ 100 ∷ []

consoleintr_lem_example : Shows (consoleintr keys nothing) (97 ∷ 99 ∷ 10 ∷ []) (100 ∷ [])
unfolding reverse
consoleintr_lem_example = consoleintr_lem keys nothing [] [] nothing-Shows

consoleintr_test : (consoleintr keys nothing).w ≡ 3
unfolding consoleintr key put_char commit_line
consoleintr_test = refl

kill_test : (consoleintr (97 ∷ 98 ∷ 21 ∷ []) nothing).e ≡ 0
unfolding consoleintr key put_char commit_line kill_line
kill_test = refl

-- The line "h".
abbrev one_line : Input
one_line = record { buf = λ j. if j == 0 then 104 else 10; r = 0; w = 2; e = 2 }

one_line-Shows : Shows one_line (104 ∷ 10 ∷ []) []
one_line-Shows = (
  record {
    read_word = omega arith;
    write_index = refl;
    edit_index = refl;
    room = omega arith;
    held = (refl, (refl, tt));
    edited = tt;
  },
  tt,
)

read_line_lem_example : Gives (read_line false 5 5 one_line) [] (104 ∷ 10 ∷ [], returns, [])
read_line_lem_example = read_line_lem false 5 5 one_line (104 ∷ 10 ∷ []) [] one_line-Shows

sleeps_test : (read_line false 5 5 nothing).1 ≡ sleeps 5
unfolding read_line
sleeps_test = refl

-- A killed process gives up.
fails_test : (read_line true 5 5 nothing).1 ≡ fails
unfolding read_line
fails_test = refl
