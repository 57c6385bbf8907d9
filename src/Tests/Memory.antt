-- ===== src/Tests/Memory.antt =====
-- The page allocator, with two free pages.
use os182_ass.Prelude.{◌==◌, if◌then◌else◌, ℕ, ◌%◌, ◌≤◌, ◌<◌, ◌≡◌, refl, some, [], ◌∷◌, arith}
use os182_ass.Prelude.Outcome.{ok}
use os182_ass.Memory.{Mem, pgsize, phystop, v2p, pgroundup}
use os182_ass.Kalloc.{Kmem, freerange}
use os182_ass.Kalloc.Chain.{IsPage, Free}
use os182_ass.Kalloc.Range.{stacked, freerange-Free}

-- `end` of the tests.
abbrev kernel_end : ℕ
kernel_end = 0x8011_5000

abbrev links : Mem
links a = if a == 0x8020_0000 then 0x8030_0000 else 0

abbrev two_free : Kmem
two_free = record { mem = links; use_lock = 1; freelist = 0x8020_0000 }

abbrev none_free : Kmem
none_free = record { mem = links; use_lock = 1; freelist = 0 }

is_page : (v : ℕ) → v % pgsize ≡ 0 → kernel_end ≤ v → v2p v < phystop → IsPage kernel_end v
is_page v al lo hi = record { aligned = al; above = lo; below = hi }

two_free-Free : Free kernel_end two_free (0x8020_0000 ∷ 0x8030_0000 ∷ [])
two_free-Free = record {
  chain = (
    refl,
    is_page 0x8020_0000 refl (omega arith) (omega arith),
    (refl, is_page 0x8030_0000 refl (omega arith) (omega arith), refl),
  );
  distinct = ((omega arith, tt), (tt, tt));
}

none_free-Free : Free kernel_end none_free []
none_free-Free = record { chain = refl; distinct = tt }

freerange-Free_example :
    (k' : Kmem) × (freerange kernel_end 0x8011_5004 0x8011_9000 none_free ≡ some (ok k'))
    × Free kernel_end k' (stacked 3 (pgroundup 0x8011_5004) [])
freerange-Free_example =
    freerange-Free kernel_end 0x8011_9000 0x8011_5004 3 []
      (record {
        aligned = refl;
        low = omega arith;
        above = omega arith;
        high = omega arith;
        fits = omega arith;
        last = omega arith;
      })
      tt none_free-Free
