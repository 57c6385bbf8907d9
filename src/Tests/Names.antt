-- ===== src/Tests/Names.antt =====
-- Two strings in memory: `ab` at 10 and `ac` at 20.
use os182_ass.Prelude.{◌==◌, if◌then◌else◌, ℕ, ◌-◌, ◌^◌, ◌<◌, ◌≡◌, refl, some, arith}
use os182_ass.Strings.{Bytes}
use os182_ass.Strings.Compare.{strlen, memcmp}

abbrev two_strings : Bytes
two_strings a =
    if a == 10
    then 97
    else if a == 11
    then 98
    else if a == 20
    then 97
    else if a == 21
    then 99
    else 0

two_strings-bytes : (a : ℕ) → two_strings a < 2 ^ 8
two_strings-bytes a = ground arith

memcmp_test : memcmp 10 20 2 two_strings ≡ 2 ^ 32 - 1
unfolding memcmp
memcmp_test = refl

strlen_test : strlen 5 10 two_strings ≡ some 2
unfolding strlen
strlen_test = refl
