-- ===== src/Tests/Arguments.antt =====
-- A process of 64 bytes, with the arguments 40 and 8 on its stack and the string of length 2 at 40.
use os182_ass.Prelude.{◌==◌, if◌then◌else◌, ◌+◌, ◌^◌, ◌≤◌, ◌<◌, ◌≡◌, refl, ◌↔◌, none, some, arith}
use os182_ass.Syscall.{User, fetchint, argint, argptr, argstr}
use os182_ass.Syscall.Bounds.{IsString, argptr_lem, argstr_lem}

abbrev small_user : User
small_user = record {
  mem = λ a.
      if a == 20
      then 40
      else if a == 24
      then 8
      else if a == 40
      then 104
      else if a == 41
      then 105
      else 0;
  sz = 64;
  esp = 16;
}

argptr_test : argptr small_user 0 8 ≡ some 40
unfolding argptr argint fetchint
argptr_test = refl

argptr_test_outside : argptr small_user 0 25 ≡ none
unfolding argptr argint fetchint
argptr_test_outside = refl

argptr_lem_example :
    (argptr small_user 0 8 ≡ some 40)
    ↔ ((argint small_user 0 ≡ some 40) × (8 < 2 ^ 31) × (40 < 64) × (40 + 8 ≤ 64))
argptr_lem_example = argptr_lem small_user 0 8 40 (omega arith)

argstr_lem_example :
    (argstr small_user 0 ≡ some (40, 2))
    ↔ ((argint small_user 0 ≡ some 40) × (40 + 2 < 64) × IsString small_user.mem 40 2)
argstr_lem_example = argstr_lem small_user 0 40 2
