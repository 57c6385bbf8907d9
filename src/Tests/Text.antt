-- ===== src/Tests/Text.antt =====
-- A string of two bytes at address 100.
use os182_ass.Prelude.{◌==◌, if◌then◌else◌, ◌≡◌}
use os182_ass.Strings.{Bytes, memmove}
use os182_ass.Strings.Move.{moved, memmove-moved}

abbrev text : Bytes
text a = if a == 100 then 104 else if a == 101 then 105 else 0

-- The two regions overlap.
memmove-moved_example : memmove 101 100 2 text 102 ≡ moved 101 100 2 text 102
memmove-moved_example = memmove-moved 101 100 2 text 102
