-- ===== src/Paging/Scfifo.antt =====
-- `removeSCFIFO` of proc.c: second-chance FIFO over the queue of resident pages.
pub mod Sweep
pub mod Compact
pub mod Choice
use os182_ass.Prelude.{
  if◌then◌else◌, length, get_elem?, get_or, set, ℕ, zero, suc, ◌-◌, none, some, List, [], ◌∷◌, ◌++◌,
}
use os182_ass.Prelude.Outcome.{Outcome, ok, panic, fault, ◌>>=◌, ◌>>◌, deref}
use os182_ass.Prelude.Bits.{has_bit, bit_off}
use os182_ass.Memory.{Mem, write}
use os182_ass.Vm.Walk.{walk}
use os182_ass.Paging.{Slot, Page, Proc, max_psyc_pages, fix_queue}

-- `PTE_A` is bit 5.
abbrev pub pte_a : ℕ
pte_a = 5

-- Where the first loop of `removeSCFIFO` stops: the memory, the slot that it found (`none` at the
-- end of the queue), the items that it put in `temp`, and the slots behind the one that it found.
pub record Scan : Type 0 where
  pub mem : Mem
  pub index : Slot
  pub temp : List Slot
  pub rest : List Slot

-- The first loop, with `temp` so far and the slots still to look at. `pagesDS[-1]` is a fault.
unfoldable pub scan : Mem → ℕ → List Page → List Slot → List Slot → Outcome Scan
scan m pgdir pages temp [] = ok (record { mem = m; index = none; temp = temp; rest = [] })
scan m pgdir pages temp (s ∷ q) = do
  idx ← deref s
  page ← deref (get_elem? pages idx)
  pte ← deref (walk m pgdir page.v_address)
  if has_bit pte_a (m pte)
      then scan (write m pte (bit_off pte_a (m pte))) pgdir pages (temp ++ s ∷ []) q
      else ok (record { mem = m; index = s; temp = temp; rest = q })

-- `while(i < 16 && queue[i] != -1) queue[new_index++] = queue[i++]`, with the rounds left, 16 - i.
unfoldable pub pull_loop : ℕ → ℕ → ℕ → List Slot → ℕ × List Slot
pull_loop zero i new q = (new, q)
pull_loop (suc rounds) i new q = elim (get_or q i none) [
  | none ↦ (new, q)
  | some x ↦ pull_loop rounds (suc i) (suc new) (set q new (some x))
]

-- `while(new_index < 16) queue[new_index++] = temp[i++]`, with the rounds left; `temp` is -1 behind
-- its items.
unfoldable pub fill_loop : ℕ → ℕ → ℕ → List Slot → List Slot → List Slot
fill_loop zero i new temp q = q
fill_loop (suc rounds) i new temp q =
    fill_loop rounds (suc i) (suc new) temp (set q new (get_or temp i none))

-- What follows the first loop, where it found a slot at position `i`.
unfoldable pub compact : ℕ → List Slot → List Slot → List Slot
compact i temp q =
    let (new, q') = pull_loop (max_psyc_pages - suc i) (suc i) 0 q in
    fill_loop (max_psyc_pages - new) 0 new temp q'

-- What follows the first loop: the value returned, the memory and the process.
unfoldable pub retire : Proc → Scan → Outcome (Slot × Mem × Proc)
retire p s = elim s.index [
  | none ↦ elim (get_or p.in_ram_queue 0 none) [
    | none ↦ panic
    | some head ↦ ok (some head, s.mem, record p { in_ram_queue = fix_queue 0 p.in_ram_queue })
  ]
  | some v ↦
      ok (some v, s.mem, record p { in_ram_queue = compact (length s.temp) s.temp p.in_ram_queue })
]

unfoldable pub remove_scfifo : Mem → Proc → Outcome (Slot × Mem × Proc)
remove_scfifo m p = do s ← scan m p.pgdir p.pages_ds [] p.in_ram_queue; retire p s
