-- ===== src/Space.antt =====
-- vm.c and proc.c: the memory of a process as its page table describes it, and how it grows, shrinks
-- and is copied. `data` of kernel.ld is the parameter `data_start`, and `age0` is the age of an unused
-- page under the policy. What the kernel prints is left out, and so is `switchuvm`, which sets up
-- segments. A null pointer that the code reads through is a `fault`.
pub mod Grow
pub mod Access
pub mod Ends
pub mod Frames
pub mod Cleared
pub mod Dealloc
use os182_ass.Prelude.{
  ltb, leb, ◌==◌, if◌then◌else◌, ℕ, zero, suc, ◌+◌, ◌-◌, ◌*◌, ◌/◌, ◌%◌, ◌^◌, Bool, true, false, not,
  ◌&&◌, Option, none, some, List, [], ◌∷◌,
}
use os182_ass.Prelude.Outcome.{Outcome, ok, panic, fault, ◌>>=◌, ◌>>◌, deref, panic_if}
use os182_ass.Prelude.Bits.{has_bit, bit_off}
use os182_ass.Memory.{Mem, pgsize, kernbase, phystop, pgroundup, v2p, p2v, write, fill_page}
use os182_ass.Vm.Walk.{pdx, pte_addr, walk}
use os182_ass.Vm.Map.{mappages}
use os182_ass.Kalloc.{Kmem, kfree, kalloc}
use os182_ass.Paging.{Page, Proc, max_psyc_pages, insert}
use os182_ass.Paging.Pages.{deallocate_page}
use os182_ass.Swap.Fault.{user_flags, returned}

-- `DEFAULT_PROCESSES`: the first processes are not paged.
abbrev pub default_processes : ℕ
default_processes = 2

-- `PGADDR(PDX(a) + 1, 0, 0)`
abbrev pub next_table : ℕ → ℕ
next_table a = (pdx a + 1) * 2 ^ 22 % 2 ^ 32

-- `if(myproc()->pid > DEFAULT_PROCESSES && flag == 1) deallocatePage(a)`
unfoldable pub forget_page : ℕ → Bool → ℕ → Proc → Outcome Proc
forget_page age0 flag a p =
    if ltb default_processes p.pid && flag then deallocate_page age0 a p else ok p

-- The body of the loop of `deallocuvm` for the entry at `pte`.
unfoldable pub dealloc_entry : ℕ → ℕ → Bool → ℕ → ℕ → Kmem → Proc → Outcome (Kmem × Proc)
dealloc_entry kernel_end age0 flag a pte k p =
    if has_bit 0 (k.mem pte)
    then (do
      panic_if (pte_addr (k.mem pte) == 0)
      p' ← forget_page age0 flag a p
      k' ← kfree kernel_end (p2v (pte_addr (k.mem pte))) k
      ok (record k' { mem = write k'.mem pte 0 }, p'))
    else if ltb default_processes p.pid && has_bit 9 (k.mem pte)
    then (do
      panic_if (pte_addr (k.mem pte) == 0)
      p' ← forget_page age0 flag a p
      ok (record k { mem = write k.mem pte 0 }, p'))
    else ok (k, p)

-- The body of the loop at `a`, with the next address.
unfoldable pub dealloc_at : ℕ → ℕ → Bool → ℕ → ℕ → Kmem → Proc → Outcome (ℕ × Kmem × Proc)
dealloc_at kernel_end age0 flag pgdir a k p = elim (walk k.mem pgdir a) [
  | none ↦ ok (next_table a, k, p)
  | some pte ↦
      dealloc_entry kernel_end age0 flag a pte k p >>= λ r. ok ((a + pgsize) % 2 ^ 32, r.0, r.1)
]

-- The loop with fuel: at its end the loop has not ended.
unfoldable pub dealloc_loop :
    ℕ → ℕ → ℕ → Bool → ℕ → ℕ → ℕ → Kmem → Proc → Option (Outcome (Kmem × Proc))
dealloc_loop zero kernel_end age0 flag pgdir oldsz a k p = none
dealloc_loop (suc fuel) kernel_end age0 flag pgdir oldsz a k p =
    if ltb a oldsz
    then elim (dealloc_at kernel_end age0 flag pgdir a k p) [
      | ok (next, k', p') ↦ dealloc_loop fuel kernel_end age0 flag pgdir oldsz next k' p'
      | panic ↦ some panic
      | fault ↦ some fault
    ]
    else some (ok (k, p))

-- One round for each page below `oldsz`, and one in which the loop ends.
abbrev pub dealloc_rounds : ℕ → ℕ
dealloc_rounds oldsz = suc (oldsz / pgsize + 1)

-- The result is the new size.
unfoldable pub deallocuvm : ℕ → ℕ → Bool → ℕ → ℕ → ℕ → Kmem → Proc → Outcome (ℕ × Kmem × Proc)
deallocuvm kernel_end age0 flag pgdir oldsz newsz k p =
    if leb oldsz newsz
    then ok (oldsz, k, p)
    else elim (dealloc_loop (dealloc_rounds oldsz) kernel_end age0 flag pgdir oldsz
        (pgroundup newsz) k p) [ none ↦ fault | some r ↦ r >>= λ s. ok (newsz, s.0, s.1) ]

-- `for(i = 0; i < NPDENTRIES; i++)` of `freevm`, with the entries left.
unfoldable pub free_tables : ℕ → ℕ → ℕ → ℕ → Kmem → Outcome Kmem
free_tables zero kernel_end pgdir i k = ok k
free_tables (suc left) kernel_end pgdir i k =
    (if has_bit 0 (k.mem (pgdir + 4 * i))
      then kfree kernel_end (p2v (pte_addr (k.mem (pgdir + 4 * i)))) k
      else ok k)
    >>= λ k'. free_tables left kernel_end pgdir (suc i) k'

unfoldable pub freevm : ℕ → ℕ → ℕ → Kmem → Proc → Outcome (Kmem × Proc)
freevm kernel_end age0 pgdir k p = do
  panic_if (pgdir == 0)
  (_, k1, p1) ← deallocuvm kernel_end age0 false pgdir kernbase 0 k p
  k2 ← free_tables 1024 kernel_end pgdir 0 k1
  k3 ← kfree kernel_end pgdir k2
  ok (k3, p1)

unfoldable pub clearpteu : ℕ → ℕ → Kmem → Outcome Kmem
clearpteu pgdir uva k = elim (walk k.mem pgdir uva) [
  | none ↦ panic
  | some pte ↦ ok (record k { mem = write k.mem pte (bit_off 2 (k.mem pte)) })
]

-- The null pointer is 0.
unfoldable pub uva2ka : ℕ → ℕ → Mem → Outcome ℕ
uva2ka pgdir uva m = do
  pte ← deref (walk m pgdir uva)
  ok (
      if not (has_bit 0 (m pte))
      then 0
      else if not (has_bit 2 (m pte))
      then 0
      else p2v (pte_addr (m pte)))

-- An entry of `kmap`.
pub record Mapping : Type 0 where
  pub virt : ℕ
  pub phys_start : ℕ
  pub phys_end : ℕ
  pub perm : ℕ

-- `EXTMEM`, `KERNLINK` and `DEVSPACE`
abbrev pub extmem : ℕ
extmem = 0x10_0000

abbrev pub kernlink : ℕ
kernlink = kernbase + extmem

abbrev pub devspace : ℕ
devspace = 0xFE00_0000

-- `PTE_W` is 2.
abbrev pub kmap : ℕ → List Mapping
kmap data_start =
    record { virt = kernbase; phys_start = 0; phys_end = extmem; perm = 2 }
    ∷ record { virt = kernlink; phys_start = v2p kernlink; phys_end = v2p data_start; perm = 0 }
    ∷ record { virt = data_start; phys_start = v2p data_start; phys_end = phystop; perm = 2 }
    ∷ record { virt = devspace; phys_start = devspace; phys_end = 0; perm = 2 }
    ∷ []

-- The loop over `kmap`; `false` when there was no page for a table.
unfoldable pub map_kernel : List Mapping → ℕ → Kmem → Outcome (Bool × Kmem)
map_kernel [] pgdir k = ok (true, k)
map_kernel (e ∷ es) pgdir k = do
  (mapped, k') ←
      mappages pgdir e.virt ((e.phys_end + 2 ^ 32 - e.phys_start) % 2 ^ 32) e.phys_start e.perm k
  if mapped then map_kernel es pgdir k' else ok (false, k')

-- The new page directory, or the null pointer.
unfoldable pub setupkvm : ℕ → ℕ → ℕ → Kmem → Proc → Outcome (ℕ × Kmem × Proc)
setupkvm kernel_end age0 data_start k p =
    let (pgdir, k') = kalloc k in
    if pgdir == 0 then ok (0, k', p) else (do
      panic_if (ltb devspace (p2v phystop))
      (mapped, k2) ←
          map_kernel (kmap data_start) pgdir (record k' { mem = fill_page k'.mem pgdir 0 })
      if mapped
          then ok (pgdir, k2, p)
          else (freevm kernel_end age0 pgdir k2 p >>= λ s. ok (0, s.0, s.1)))

-- `memmove(dst, src, PGSIZE)` between two pages.
unfoldable pub copy_page : Mem → ℕ → ℕ → Mem
copy_page m dst src a = if leb dst a && ltb a (dst + pgsize) then m (src + (a - dst)) else m a

-- The body of the loop of `copyuvm` at `i`; `false` is `goto bad`.
unfoldable pub copy_at : ℕ → ℕ → ℕ → Kmem → Outcome (Bool × Kmem)
copy_at pgdir d i k = elim (walk k.mem pgdir i) [
  | none ↦ panic
  | some pte ↦
      let entry = k.mem pte in
      let (mem, k') = kalloc k in
      if not (has_bit 0 entry)
      then (panic_if (not (has_bit 9 entry)) >> ok (true, k))
      else if mem == 0
      then ok (false, k')
      else mappages d i pgsize (v2p mem) (entry % 4096)
          (record k' { mem = copy_page k'.mem mem (p2v (pte_addr entry)) })
]

-- The loop at `i`, for the pages left below the size.
unfoldable pub copy_loop : ℕ → ℕ → ℕ → ℕ → Kmem → Outcome (Bool × Kmem)
copy_loop zero pgdir d i k = ok (true, k)
copy_loop (suc pages) pgdir d i k = do
  (copied, k') ← copy_at pgdir d i k
  if copied then copy_loop pages pgdir d ((i + pgsize) % 2 ^ 32) k' else ok (false, k')

-- The page directory of the copy, or the null pointer.
unfoldable pub copyuvm : ℕ → ℕ → ℕ → ℕ → ℕ → Kmem → Proc → Outcome (ℕ × Kmem × Proc)
copyuvm kernel_end age0 data_start pgdir sz k p = do
  (d, k1, p1) ← setupkvm kernel_end age0 data_start k p
  if d == 0
      then ok (0, k1, p1)
      else (copy_loop ((sz + (pgsize - 1)) / pgsize) pgdir d 0 k1 >>= λ r.
          if r.0
          then ok (d, r.1, p1)
          else (freevm kernel_end age0 d r.1 p1 >>= λ s. ok (0, s.0, s.1)))
