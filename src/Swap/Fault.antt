-- ===== src/Swap/Fault.antt =====
-- The page fault of trap.c: a page comes back from the swap file into a new frame.
use os182_ass.Prelude.{
  ◌==◌, if◌then◌else◌, get_elem?, set, ℕ, ◌+◌, ◌-◌, ◌%◌, ◌^◌, not, ◌&&◌, none, some, List, [], ◌∷◌,
}
use os182_ass.Prelude.Outcome.{Outcome, ok, panic, ◌>>=◌, deref}
use os182_ass.Prelude.Bits.{bit_on, bit_off}
use os182_ass.Memory.{Mem, write, fill_page, pgsize, pgrounddown, v2p}
use os182_ass.Vm.Walk.{walk}
use os182_ass.Vm.Map.{mappages}
use os182_ass.Kalloc.{kalloc}
use os182_ass.Paging.{Slot, Page, Proc, max_psyc_pages, insert, insert_offset_queue}
use os182_ass.Fs.{Superblock}
use os182_ass.SwapDisk.{SwapDisk, read_page}
use os182_ass.Swap.{Policy, find_address, Swapping, swapped, swap_to_file}

unfoldable pub count_in_ram : List Page → ℕ
count_in_ram [] = 0
count_in_ram (page ∷ pages) =
    (if (page.is_allocated == 1) && not (page.in_ram == 0) then 1 else 0) + count_in_ram pages

-- A page is swapped out when the process has as many in memory as it may.
unfoldable pub make_room : Superblock → Policy → ℕ → Swapping → Outcome (Swapping)
make_room sb policy kernel_end s =
    if count_in_ram s.proc.pages_ds == max_psyc_pages
    then (swap_to_file sb policy kernel_end s.proc.pgdir s >>= λ r. ok r.1)
    else ok s

-- `(uint) -1` stands for no offset.
abbrev pub place : Slot → ℕ
place none = 2 ^ 32 - 1
place (some off) = off

-- `memset(v, 0, PGSIZE)`, and the read from the swap file.
unfoldable pub load_page : Superblock → Slot → ℕ → SwapDisk → Mem → Outcome (Mem × SwapDisk)
load_page sb slot v file m = read_page sb v (place slot) (fill_page m v 0) file

-- `PTE_W | PTE_U`
abbrev pub user_flags : ℕ
user_flags = 6

-- The entry of a page that is back.
abbrev pub returned : ℕ → ℕ
returned pte = bit_off 9 (bit_on 0 pte)

unfoldable pub page_back : ℕ → Page → Proc → Outcome Proc
page_back i page p = do
  p1 ← insert_offset_queue page.file_offset p
  p2 ←
      insert i (record p1 {
        pages_ds = set p1.pages_ds i (record page { in_ram = 1; file_offset = none });
      })
  ok (record p2 { number_of_paged_out = (p2.number_of_paged_out + (2 ^ 32 - 1)) % 2 ^ 32 })

-- The page of `va` comes into the frame at `v`.
unfoldable pub page_in : Superblock → ℕ → ℕ → Swapping → Outcome (Swapping)
page_in sb va v s = do
  i ← elim (find_address (pgrounddown va) 0 s.proc.pages_ds) [ none ↦ panic | some i ↦ ok i ]
  page ← deref (get_elem? s.proc.pages_ds i)
  (m, file) ← load_page sb page.file_offset v s.file s.kmem.mem
  pte ← deref (walk m s.proc.pgdir va)
  (mapped, k) ←
      mappages s.proc.pgdir (pgrounddown va) pgsize (v2p v) user_flags
        (record s.kmem { mem = write m pte (swapped (m pte)) })
  p ← page_back i page s.proc
  ok (record {
    kmem = record k { mem = write k.mem pte (returned (k.mem pte)) };
    proc = p;
    file = file;
  })

-- The case `T_PGFLT` of `trap`, with `va` from `%cr2`.
unfoldable pub page_fault : Superblock → Policy → ℕ → ℕ → Swapping → Outcome (Swapping)
page_fault sb policy kernel_end va s = do
  room ← make_room sb policy kernel_end (record s {
    proc = record s.proc { number_of_page_faults = (s.proc.number_of_page_faults + 1) % 2 ^ 32 };
  })
  if (kalloc room.kmem).0 == 0
      then ok room
      else page_in sb va (kalloc room.kmem).0 (record room { kmem = (kalloc room.kmem).1 })
