-- ===== src/Tests/Logging.antt =====
-- The log, with 31 blocks from block 2 on.
use os182_ass.Prelude.{
  leb, ◌==◌, if◌then◌else◌, get_or, take, ℕ, suc, ◌≡◌, refl, ◌⊎◌, inr, none, some, [], ◌∷◌, arith,
}
use os182_ass.Prelude.Outcome.{ok, panic}
use os182_ass.Disk.{Block, Store, bread, reboot, apply_writes}
use os182_ass.Log.{logsize, recover_from_log, commit, absorb, log_write, begin_op}
use os182_ass.Log.Phases.{Home}
use os182_ass.Log.Crash.Points.{Ready}
use os182_ass.Log.Crash.Commit.{commit_crash, commit-installs}
use os182_ass.Log.Operations.{System, start, put, Reach, here, next, IsValid}
use os182_ass.Log.Reserve.{Reach-IsValid, log_write-reserved}

abbrev empty_block : Block
empty_block = 0 ∷ 0 ∷ 0 ∷ 0 ∷ []

-- Blocks 70 and 90 are changed in the cache.
abbrev pending : Store
pending = record {
  disk = λ a. empty_block;
  cached = λ a. if a == 70 then some (7 ∷ []) else if a == 90 then some (9 ∷ []) else none;
  trace = [];
}

pending-Ready : Ready 2 31 (bread pending) (70 ∷ 90 ∷ []) pending.disk
unfolding bread
pending-Ready = record {
  room = omega arith;
  homes = (inr (omega arith), (inr (omega arith), tt));
  clear = refl;
  coherent = λ a home out. ground arith;
}

commit_crash_example :
    (recover_from_log 2
        (reboot (apply_writes (take 4 (commit 2 (70 ∷ 90 ∷ []) pending).trace) pending.disk))).disk
      70
    ≡ (if leb 4 2 then pending.disk 70 else bread pending 70)
unfolding bread
commit_crash_example =
    commit_crash (70 ∷ 90 ∷ []) pending pending-Ready (omega arith) (omega arith) refl 4 70
      (inr (omega arith))

commit-installs_example :
    ((a : ℕ) → Home 2 31 a → (commit 2 (70 ∷ 90 ∷ []) pending).disk a ≡ bread pending a)
    × (get_or ((commit 2 (70 ∷ 90 ∷ []) pending).disk 2) 0 0 ≡ 0)
unfolding bread
commit-installs_example =
    commit-installs (70 ∷ 90 ∷ []) pending pending-Ready (omega arith) (omega arith)

-- One operation has begun and written block 70.
abbrev begun : System
begun = record {
  log = record { size = 31; outstanding = 1; committing = 0; blocks = [] };
  written = [] ∷ [];
}

abbrev written : System
written = record {
  log = record { size = 31; outstanding = 1; committing = 0; blocks = 70 ∷ [] };
  written = (70 ∷ []) ∷ [];
}

begun-Reach : Reach 31 begun
unfolding begin_op
begun-Reach = next here (start refl)

written-Reach : Reach 31 written
unfolding log_write absorb
written-Reach = next begun-Reach (put 70 [] [] [] refl (omega arith) refl)

Reach-IsValid_example : IsValid 31 written
Reach-IsValid_example = Reach-IsValid written-Reach

log_write-reserved_example :
    (log_write 90 written.log ≡ ok (record written.log { blocks = absorb 90 (70 ∷ []) }))
    ⊎ ((31 ≡ logsize) × (suc 1 ≡ logsize) × (log_write 90 written.log ≡ panic))
log_write-reserved_example =
    log_write-reserved 90 [] (70 ∷ []) [] (omega arith) written-Reach refl (omega arith)
