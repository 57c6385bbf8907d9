-- ===== src/Tests/Commands.antt =====
-- The line `a|(b >f;c)&`.
use os182_ass.Prelude.{ℕ, ◌≡◌, refl, ◌⊎◌, List, [], ◌∷◌}
use os182_ass.Shell.{
  Cmd, execcmd, redircmd, pipecmd, listcmd, backcmd, parsed, rejected, parseredirs, redirected,
  parseargs, parseback, parseline, parsepipe, parseexec, parseblock, parsecmd_loop, skip_space,
  word_loop, token_at, gettoken, peek,
}
use os182_ass.Shell.Ends.{IsCmd}
use os182_ass.Shell.Total.{parsecmd-ends}

abbrev line : List ℕ
line = 97 ∷ 124 ∷ 40 ∷ 98 ∷ 32 ∷ 62 ∷ 102 ∷ 59 ∷ 99 ∷ 41 ∷ 38 ∷ []

abbrev expected : Cmd
expected = backcmd (
    pipecmd (execcmd ((97 ∷ []) ∷ [])) (
      listcmd
        (redircmd (execcmd ((98 ∷ []) ∷ [])) (record { file = 102 ∷ []; mode = 0x201; fd = 1 }))
        (execcmd ((99 ∷ []) ∷ []))))

parse_test : parsecmd_loop 48 line ≡ parsed expected []
unfolding parsecmd_loop parseline parsepipe parseexec parseblock parseback parseargs parseredirs
    redirected skip_space word_loop token_at gettoken peek
parse_test = refl

parsecmd-ends_example :
    (parsecmd_loop 48 line ≡ rejected)
    ⊎ ((cmd : Cmd) × (left : List ℕ) × (parsecmd_loop 48 line ≡ parsed cmd left) × IsCmd cmd)
parsecmd-ends_example = parsecmd-ends line
