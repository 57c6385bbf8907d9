-- ===== src/Paging.antt =====
-- The paging part of a process (proc.h) and the functions of proc.c that choose the page to swap
-- out and keep the queue of resident pages and the offsets of the swap file. -1 in an `int` slot of
-- the C code is `none`, and an index is `some`. `curproc` is an argument, and each function returns
-- the process that it leaves. An access outside an array, or through a null pointer, is a `fault`.
pub mod Queue
pub mod Scfifo
pub mod Aging
pub mod Pages
use os182_ass.Prelude.{
  ◌==◌, get_or, set, ℕ, zero, suc, ◌+◌, ◌-◌, ◌%◌, ◌^◌, Option, none, some, List, [], ◌∷◌,
}
use os182_ass.Prelude.Outcome.{Outcome, ok, panic, fault, ◌>>=◌, ◌>>◌, deref, panic_if}
use os182_ass.Prelude.Bits.{has_bit, bit_on, bit_off}
use os182_ass.Memory.{Mem, write, pgsize}
use os182_ass.Vm.Walk.{walk}

-- `MAX_PSYC_PAGES` and `MAX_TOTAL_PAGES`
abbrev pub max_psyc_pages : ℕ
max_psyc_pages = 16

abbrev pub max_total_pages : ℕ
max_total_pages = 32

-- An `int` that is an index or an offset, or -1.
abbrev pub Slot : Type 0
Slot = Option ℕ

-- `struct page`
pub record Page : Type 0 where
  pub v_address : ℕ
  pub file_offset : Slot
  pub in_ram : ℕ
  pub is_allocated : ℕ
  pub age : ℕ

-- The fields of `struct proc` that the paging code reads and writes.
pub record Proc : Type 0 where
  pub pid : ℕ
  pub pgdir : ℕ
  pub pages_ds : List Page
  pub file_offset : ℕ
  pub number_of_allocated_pages : ℕ
  pub number_of_paged_out : ℕ
  pub number_of_page_faults : ℕ
  pub total_number_of_paged_out : ℕ
  pub in_ram_queue : List Slot
  pub available_offset_queue : List Slot

-- `q[index] = q[index + 1]` for `rounds` indices from `index` on: the loop of `fixQueue` and of
-- `fixOffsetQueue`.
unfoldable pub shift_loop : ℕ → ℕ → List Slot → List Slot
shift_loop zero index q = q
shift_loop (suc rounds) index q =
    shift_loop rounds (suc index) (set q index (get_or q (suc index) none))

unfoldable pub fix_queue : ℕ → List Slot → List Slot
fix_queue index q = set (shift_loop (max_psyc_pages - 1 - index) index q) (max_psyc_pages - 1) none

-- `insert` and `insertOffsetQueue`: the list is `q[i..16)`, so at its end the loop's condition
-- reads past the array. The test of `i` in the loop's body comes after that read.
unfoldable pub insert_loop : ℕ → List Slot → Slot → Outcome (List Slot)
insert_loop i [] index = fault
insert_loop i (none ∷ q) index = ok (index ∷ q)
insert_loop i (some x ∷ q) index = do
  panic_if (i == max_psyc_pages)
  r ← insert_loop (i + 1) q index
  ok (some x ∷ r)

unfoldable pub insert : ℕ → Proc → Outcome Proc
insert index p = do
  q ← insert_loop 0 p.in_ram_queue (some index)
  ok (record p { in_ram_queue = q })

unfoldable pub remove_aq : Proc → Slot × Proc
remove_aq p = (get_or p.in_ram_queue 0 none, record p { in_ram_queue = fix_queue 0 p.in_ram_queue })

-- `fixOffsetQueue`
unfoldable pub fix_offset_queue : Proc → Proc
fix_offset_queue p = record p {
  available_offset_queue =
      set (shift_loop (max_psyc_pages - 1) 0 p.available_offset_queue) (max_psyc_pages - 1) none;
}

unfoldable pub remove_offset_queue : Proc → Slot × Proc
remove_offset_queue p = elim (get_or p.available_offset_queue 0 none) [
  | none ↦ (none, p)
  | some o ↦ (some o, fix_offset_queue p)
]

unfoldable pub insert_offset_queue : Slot → Proc → Outcome Proc
insert_offset_queue index p = do
  q ← insert_loop 0 p.available_offset_queue index
  ok (record p { available_offset_queue = q })

-- `fileOffset` is a `uint`; the result is an `int`.
unfoldable pub get_free_file_offset : Proc → ℕ × Proc
get_free_file_offset p =
    let (result, p') = remove_offset_queue p in
    elim result [
      | none ↦ (p'.file_offset, record p' { file_offset = (p'.file_offset + pgsize) % 2 ^ 32 })
      | some o ↦ (o, p')
    ]
