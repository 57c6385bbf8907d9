-- ===== src/Vm/Walk.antt =====
-- `walkpgdir` of vm.c without allocation: from a page directory and a virtual address to the place
-- of the page table entry, through the macros of mmu.h.
use os182_ass.Prelude.{
  ℕ, ◌+◌, ◌*◌, ◌/◌, ◌%◌, ◌^◌, ◌<◌, ◌≡◌, ◌≢◌, true, Option, none, some, arith, if◌then◌else◌,
}
use os182_ass.Prelude.Bits.{has_bit}
use os182_ass.Memory.{Mem, pgsize, p2v, write, write_ne}

-- `PDX(va)` and `PTX(va)`
abbrev pub pdx : ℕ → ℕ
pdx va = va / 2 ^ 22 % 1024

abbrev pub ptx : ℕ → ℕ
ptx va = va / 2 ^ 12 % 1024

-- `PTE_ADDR(pte)`
abbrev pub pte_addr : ℕ → ℕ
pte_addr w = w / 4096 * 4096

-- The place of the page directory entry for `va`.
abbrev pub pde_ptr : ℕ → ℕ → ℕ
pde_ptr pgdir va = pgdir + 4 * pdx va

-- `walkpgdir(pgdir, va, 0)`: the null pointer where the page table page is not present.
unfoldable pub walk : Mem → ℕ → ℕ → Option ℕ
walk m pgdir va =
    if has_bit 0 (m (pde_ptr pgdir va))
    then some (p2v (pte_addr (m (pde_ptr pgdir va))) + 4 * ptx va)
    else none

-- A page directory at `pgdir` whose page table pages are different pages, and not its own.
pub record IsTree (m : Mem) (pgdir : ℕ) : Type 0 where
  pub aligned : pgdir % pgsize ≡ 0
  pub apart :
      (d e : ℕ)
      → d < 1024
      → e < 1024
      → has_bit 0 (m (pgdir + 4 * d)) ≡ true
      → has_bit 0 (m (pgdir + 4 * e)) ≡ true
      → p2v (pte_addr (m (pgdir + 4 * d))) ≡ p2v (pte_addr (m (pgdir + 4 * e)))
      → d ≡ e
  pub outside :
      (d : ℕ)
      → d < 1024
      → has_bit 0 (m (pgdir + 4 * d)) ≡ true
      → p2v (pte_addr (m (pgdir + 4 * d))) ≢ pgdir

module _ {m : Mem} {pgdir : ℕ} (t : IsTree m pgdir) where
  -- Two addresses with one page table entry lie on one page.
  pub walk-same_page :
      (va vb : ℕ) {p : ℕ}
      → va < 2 ^ 32
      → vb < 2 ^ 32
      → walk m pgdir va ≡ some p
      → walk m pgdir vb ≡ some p
      → va / pgsize ≡ vb / pgsize
  unfolding walk
  walk-same_page va vb {p} la lb ea eb = ground (arith, t.apart (pdx va) (pdx vb))

  -- A page table entry is not in the page directory.
  pub walk-ne-pde : (va d : ℕ) {p : ℕ} → d < 1024 → walk m pgdir va ≡ some p → pgdir + 4 * d ≢ p
  unfolding walk
  walk-ne-pde va d {p} l e = ground (arith, t.aligned, t.outside (pdx va))

  module _ (va w : ℕ) {p : ℕ} (e : walk m pgdir va ≡ some p) where
    pub pde-write : (d : ℕ) → d < 1024 → write m p w (pgdir + 4 * d) ≡ m (pgdir + 4 * d)
    pde-write d l = write_ne m p w (pgdir + 4 * d) (walk-ne-pde va d l e)

    -- A write to a page table entry moves no page table entry.
    pub walk-write : (vb : ℕ) → walk (write m p w) pgdir vb ≡ walk m pgdir vb
    unfolding walk
    walk-write vb = ground (arith, pde-write (pdx vb))

    pub IsTree-write : IsTree (write m p w) pgdir
    IsTree-write = record {
      aligned = t.aligned;
      apart = λ d e' ld le. ground (arith, pde-write d ld, pde-write e' le, t.apart d e');
      outside = λ d ld. ground (arith, pde-write d ld, t.outside d);
    }
