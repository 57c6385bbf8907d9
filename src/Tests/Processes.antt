-- ===== src/Tests/Processes.antt =====
-- The first process runs and forks.
use os182_ass.Prelude.{◌≡◌, refl, true, some, arith}
use os182_ass.Process.{put_entry, find_unused, allocproc, fork, schedule, userinit}
use os182_ass.Process.Waiting.{IsConsistent}
use os182_ass.Process.Steps.{picks, forks, Reach, here, next, Reach-IsConsistent}

ran-Reach : Reach (schedule 0 userinit)
unfolding userinit
ran-Reach = next here (picks 0 (omega arith) refl)

forked-Reach : Reach (fork 0 true true (schedule 0 userinit)).1
unfolding schedule put_entry
forked-Reach = next ran-Reach (forks 0 true true (omega arith) refl)

Reach-IsConsistent_example : IsConsistent (fork 0 true true (schedule 0 userinit)).1
Reach-IsConsistent_example = Reach-IsConsistent forked-Reach

-- The child gets the next pid.
fork_test : (fork 0 true true (schedule 0 userinit)).0 ≡ some 2
unfolding fork allocproc find_unused schedule put_entry userinit
fork_test = refl
