-- ===== src/Tests/Cache.antt =====
-- The cache over a disk of ten blocks, of which block `a` holds the word `a`.
use os182_ass.Prelude.{ℕ, ◌≡◌, refl, ◌⊎◌, true, [], ◌∷◌, arith}
use os182_ass.Prelude.Outcome.{ok, panic, fault}
use os182_ass.Disk.{Blocks, update}
use os182_ass.Bcache.{
  Cache, put_buf, init_order, binit, find_cached, find_unused_buf, bget, iderw, bread, bwrite,
  brelse, change,
}
use os182_ass.Bcache.View.{IsCoherent}
use os182_ass.Bcache.Get.{Read, NoBuffer, bread_lem}
use os182_ass.Bcache.Write.{Written, bwrite_lem}
use os182_ass.Bcache.Holding.{Handle}
use os182_ass.Bcache.Runs.{
  Run, starts, reads, changes, releases, Serves, Run-shows, binit-IsCoherent,
}

abbrev numbered : Blocks
numbered a = a ∷ []

-- The cache after block 3 was read.
abbrev with_three : Cache
with_three = elim (bread 10 1 3 (binit numbered)) [
  | ok r ↦ r.1
  | panic ↦ binit numbered
  | fault ↦ binit numbered
]

abbrev handle : Handle
handle = record { slot = 0; block = 3 }

three-Run : Run 10 numbered with_three numbered (handle ∷ [])
unfolding bread bget iderw find_cached find_unused_buf put_buf init_order binit
three-Run = reads 3 0 starts (omega arith) (omega arith) refl

valid_three : (with_three.bufs 0).valid ≡ true
unfolding bread bget iderw find_cached find_unused_buf put_buf init_order binit
valid_three = refl

blockno_three : (with_three.bufs 0).blockno ≡ 3
unfolding bread bget iderw find_cached find_unused_buf put_buf init_order binit
blockno_three = refl

bread_lem_example :
    (((s : ℕ) × (c' : Cache) × (bread 10 1 3 (binit numbered) ≡ ok (s, c'))
        × Read (binit numbered) c' 3 s)
      ⊎ ((bread 10 1 3 (binit numbered) ≡ panic) × NoBuffer (binit numbered) 3))
    × (NoBuffer (binit numbered) 3 → bread 10 1 3 (binit numbered) ≡ panic)
bread_lem_example = bread_lem 10 3 (binit numbered) (binit-IsCoherent numbered) (omega arith)

three-IsCoherent : IsCoherent with_three
three-IsCoherent = (Run-shows three-Run).coherent

bwrite_lem_example : (c' : Cache) × (bwrite 10 0 with_three ≡ ok c') × Written with_three c' 0
bwrite_lem_example =
    bwrite_lem 10 0 with_three three-IsCoherent valid_three (omega (arith, blockno_three))

-- Block 3 is changed and released.
released-Run :
    Run 10 numbered (brelse 0 (change 0 (8 ∷ []) with_three)) (update numbered 3 (8 ∷ [])) []
released-Run = releases [] handle [] (changes [] handle [] (8 ∷ []) three-Run)

Run-shows_example : Serves (brelse 0 (change 0 (8 ∷ []) with_three)) (update numbered 3 (8 ∷ [])) []
Run-shows_example = Run-shows released-Run
