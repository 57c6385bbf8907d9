-- ===== src/Swap.antt =====
-- Swapping out: `selectPage` and `swapToFile` of vm.c.
pub mod Out
pub mod Fault
pub mod Back
use os182_ass.Prelude.{
  ◌==◌, if◌then◌else◌, get_elem?, set, ℕ, suc, ◌+◌, ◌%◌, ◌^◌, Option, none, some, List, [], ◌∷◌,
}
use os182_ass.Prelude.Outcome.{Outcome, ok, panic, fault, ◌>>=◌, ◌>>◌, deref}
use os182_ass.Prelude.Bits.{has_bit, bit_on, bit_off}
use os182_ass.Memory.{Mem, write, pgsize, p2v}
use os182_ass.Vm.Walk.{walk, pte_addr}
use os182_ass.Kalloc.{Kmem, kfree}
use os182_ass.Paging.{Slot, Page, Proc, remove_aq, get_free_file_offset}
use os182_ass.Fs.{Superblock}
use os182_ass.SwapDisk.{SwapDisk, write_page}
use os182_ass.Paging.Scfifo.{remove_scfifo}
use os182_ass.Paging.Aging.{remove_nfua, remove_lapa}

-- The policy that the kernel is built with.
pub data Policy : Type 0 where
  scfifo nfua lapa aq : Policy

abbrev pub victim_address : Slot → Mem → Proc → Outcome (ℕ × Mem × Proc)
victim_address index m p = do
  i ← deref index
  page ← deref (get_elem? p.pages_ds i)
  ok (page.v_address, m, p)

unfoldable pub select_page : Policy → Mem → Proc → Outcome (ℕ × Mem × Proc)
select_page scfifo m p = do (index, m', p') ← remove_scfifo m p; victim_address index m' p'
select_page nfua m p = do (index, p') ← remove_nfua p; victim_address index m p'
select_page lapa m p = do (index, p') ← remove_lapa p; victim_address index m p'
select_page aq m p = victim_address (remove_aq p).0 m (remove_aq p).1

-- The index of the first page at the address; behind the array the loop reads past it.
unfoldable pub find_address : ℕ → ℕ → List Page → Option ℕ
find_address va i [] = none
find_address va i (page ∷ pages) =
    let rest = find_address va (suc i) pages in if page.v_address == va then some i else rest

pub record Swapping : Type 0 where
  pub kmem : Kmem
  pub proc : Proc
  pub file : SwapDisk

-- The entry of a page that is in the file.
abbrev pub swapped : ℕ → ℕ
swapped pte = bit_on 9 (bit_off 0 pte)

-- The page of the process at `address`, as the process reads it.
abbrev pub frame : Mem → ℕ → ℕ
frame m pte = p2v (pte_addr (m pte))

abbrev pub paged_out : ℕ → ℕ → Page → Proc → Proc
paged_out i offset page p = record p {
  pages_ds = set p.pages_ds i (record page { file_offset = some offset; in_ram = 0 });
  total_number_of_paged_out = (p.total_number_of_paged_out + 1) % 2 ^ 32;
  number_of_paged_out = (p.number_of_paged_out + 1) % 2 ^ 32;
}

-- The page is read at its address, through the page table of the process; its entry is changed in the
-- page table at `pgdir`. `lcr3` at the end only empties the TLB.
unfoldable pub swap_to_file : Superblock → Policy → ℕ → ℕ → Swapping → Outcome (ℕ × Swapping)
swap_to_file sb policy kernel_end pgdir s = do
  (address, m, p) ← select_page policy s.kmem.mem s.proc
  let (offset, p') = get_free_file_offset p
  buffer ← deref (walk m p'.pgdir address)
  file ← write_page sb (frame m buffer) offset m s.file
  i ← deref (find_address address 0 p'.pages_ds)
  page ← deref (get_elem? p'.pages_ds i)
  pte ← deref (walk m pgdir address)
  let m' = write m pte (swapped (m pte))
  kmem ← kfree kernel_end (frame m' pte) (record s.kmem { mem = m' })
  ok (frame m' pte, record { kmem = kmem; proc = paged_out i offset page p'; file = file })
