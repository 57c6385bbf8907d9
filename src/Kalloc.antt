-- ===== src/Kalloc.antt =====
-- kalloc.c: the allocator of physical pages. The list of free pages runs through the pages
-- themselves, so its links are words of the memory. `kernel_end` is the address of `end`, which the
-- linker sets. `kmem.lock` is held through each operation's access to the list, so an operation is
-- one step.
pub mod Chain
pub mod Operations
pub mod Range
use os182_ass.Prelude.{
  ltb, leb, ◌==◌, if◌then◌else◌, ℕ, zero, suc, ◌+◌, ◌%◌, ◌^◌, not, ◌||◌, Option, none, some,
}
use os182_ass.Prelude.Outcome.{Outcome, ok, panic, ◌>>=◌, ◌>>◌, panic_if}
use os182_ass.Memory.{Mem, pgsize, phystop, v2p, pgroundup, write, fill_page}

-- `kmem`, with the memory; the null pointer is 0.
pub record Kmem : Type 0 where
  pub mem : Mem
  pub use_lock : ℕ
  pub freelist : ℕ

-- Four bytes of `memset(v, 1, PGSIZE)`.
abbrev pub junk : ℕ
junk = 0x0101_0101

unfoldable pub kfree : ℕ → ℕ → Kmem → Outcome Kmem
kfree kernel_end v k = do
  panic_if (not (v % pgsize == 0) || ltb v kernel_end || leb phystop (v2p v))
  ok (record k { mem = write (fill_page k.mem v junk) v k.freelist; freelist = v })

unfoldable pub kalloc : Kmem → ℕ × Kmem
kalloc k =
    if k.freelist == 0 then (0, k) else (k.freelist, record k { freelist = k.mem k.freelist })

-- `for(; p + PGSIZE <= vend; p += PGSIZE) kfree(p)`, with fuel: at its end the loop has not ended.
unfoldable pub freerange_loop : ℕ → ℕ → ℕ → ℕ → Kmem → Option (Outcome Kmem)
freerange_loop kernel_end zero p vend k = none
freerange_loop kernel_end (suc fuel) p vend k =
    if leb ((p + pgsize) % 2 ^ 32) vend
    then elim (kfree kernel_end p k) [
      | ok k' ↦ freerange_loop kernel_end fuel ((p + pgsize) % 2 ^ 32) vend k'
      | stopped ↦ some stopped
    ]
    else some (ok k)

-- The rounds of `freerange` are at most one for each page of the address space.
abbrev pub all_pages : ℕ
all_pages = 2 ^ 20

unfoldable pub freerange : ℕ → ℕ → ℕ → Kmem → Option (Outcome Kmem)
freerange kernel_end vstart vend k =
    freerange_loop kernel_end (suc all_pages) (pgroundup vstart) vend k

unfoldable pub kinit1 : ℕ → ℕ → ℕ → Kmem → Option (Outcome Kmem)
kinit1 kernel_end vstart vend k = freerange kernel_end vstart vend (record k { use_lock = 0 })

unfoldable pub kinit2 : ℕ → ℕ → ℕ → Kmem → Option (Outcome Kmem)
kinit2 kernel_end vstart vend k = elim (freerange kernel_end vstart vend k) [
  | none ↦ none
  | some r ↦ some (r >>= λ k'. ok (record k' { use_lock = 1 }))
]

-- The loop of `getCurrentCapacity`, with fuel.
unfoldable pub capacity_loop : ℕ → Mem → ℕ → ℕ → Option ℕ
capacity_loop zero m temp counter = none
capacity_loop (suc fuel) m temp counter =
    let rest = capacity_loop fuel m (m temp) (counter + 1) in
    if temp == 0 then some counter else rest

unfoldable pub get_current_capacity : ℕ → Kmem → Option ℕ
get_current_capacity fuel k = capacity_loop fuel k.mem k.freelist 0
