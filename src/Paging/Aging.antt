-- ===== src/Paging/Aging.antt =====
-- The aging policies of proc.c: `agePages`, which the scheduler calls after a process ran, and the
-- choice of a victim by `removeNFUA` (least age) and `removeLAPA` (fewest ones in the age, and
-- among these the least age, which the code compares as an `int`).
pub mod Least
pub mod Nfua
pub mod Lapa
pub mod Tick
use os182_ass.Prelude.{
  ltb, ◌==◌, if◌then◌else◌, get_elem?, get_or, ℕ, zero, suc, ◌+◌, ◌-◌, ◌/◌, ◌%◌, ◌^◌, Bool, ◌&&◌,
  none, some, List, [], ◌∷◌,
}
use os182_ass.Prelude.Outcome.{Outcome, ok, panic, fault, ◌>>=◌, ◌>>◌, deref}
use os182_ass.Prelude.Bits.{has_bit, bit_on, bit_off}
use os182_ass.Memory.{Mem, write}
use os182_ass.Vm.Walk.{walk}
use os182_ass.Paging.{Slot, Page, Proc, max_psyc_pages, fix_queue}

-- `pagesDS[inRAMQueue[i]].age`; a fault where the slot is -1.
unfoldable pub age_at : List Page → List Slot → ℕ → Outcome ℕ
age_at pages q i = do idx ← deref (get_or q i none); page ← deref (get_elem? pages idx); ok page.age

-- The loop of `removeNFUA` from index `i`, with the rounds left.
unfoldable pub nfua_loop : ℕ → ℕ → ℕ → List Page → List Slot → Outcome ℕ
nfua_loop zero i min_index pages q = ok min_index
nfua_loop (suc rounds) i min_index pages q = do
  a ← age_at pages q i
  b ← age_at pages q min_index
  nfua_loop rounds (suc i) (if ltb a b then i else min_index) pages q

unfoldable pub remove_nfua : Proc → Outcome (Slot × Proc)
remove_nfua p = do
  i ← nfua_loop (max_psyc_pages - 1) 1 0 p.pages_ds p.in_ram_queue
  ok (get_or p.in_ram_queue i none, record p { in_ram_queue = fix_queue i p.in_ram_queue })

-- `for(j = 0; j < 32; j++) if((1 << j) & curr_age) curr_count++`, with the rounds left.
unfoldable pub count_loop : ℕ → ℕ → ℕ → ℕ → ℕ
count_loop zero j age count = count
count_loop (suc rounds) j age count =
    count_loop rounds (suc j) age (if has_bit j age then count + 1 else count)

unfoldable pub count_ones : ℕ → ℕ
count_ones age = count_loop 32 0 age 0

-- `a < b`, where the 32-bit words are read as `int`.
abbrev pub int_ltb : ℕ → ℕ → Bool
int_ltb a b = ltb ((a + 2 ^ 31) % 2 ^ 32) ((b + 2 ^ 31) % 2 ^ 32)

-- `min_i`, `min_age` and `min_count`
pub record LapaState : Type 0 where
  pub min_i : Slot
  pub min_age : ℕ
  pub min_count : ℕ

unfoldable pub lapa_step : ℕ → ℕ → LapaState → LapaState
lapa_step i curr_age s =
    let curr_count = count_ones curr_age in
    if ltb curr_count s.min_count
    then record { min_i = some i; min_age = curr_age; min_count = curr_count }
    else if (curr_count == s.min_count) && int_ltb curr_age s.min_age
    then record s { min_i = some i; min_age = curr_age }
    else s

unfoldable pub lapa_loop : ℕ → ℕ → LapaState → List Page → List Slot → Outcome LapaState
lapa_loop zero i s pages q = ok s
lapa_loop (suc rounds) i s pages q = do
  curr_age ← age_at pages q i
  lapa_loop rounds (suc i) (lapa_step i curr_age s) pages q

unfoldable pub remove_lapa : Proc → Outcome (Slot × Proc)
remove_lapa p = do
  s ←
      lapa_loop max_psyc_pages 0 (record { min_i = none; min_age = 0xFFFFFFFF; min_count = 33 })
        p.pages_ds p.in_ram_queue
  elim s.min_i [
    | none ↦ panic
    | some i ↦
        ok (get_or p.in_ram_queue i none, record p { in_ram_queue = fix_queue i p.in_ram_queue })
  ]

-- One round of `agePages`: a page that was not allocated keeps its age.
unfoldable pub age_page : Mem → ℕ → Page → Outcome (Mem × Page)
age_page m pgdir page =
    if page.is_allocated == 1
    then (do
      pte ← deref (walk m pgdir page.v_address)
      if has_bit 5 (m pte)
          then ok (write m pte (bit_off 5 (m pte)), record page { age = bit_on 31 (page.age / 2) })
          else ok (m, record page { age = page.age / 2 }))
    else ok (m, page)

unfoldable pub age_loop : Mem → ℕ → List Page → Outcome (Mem × List Page)
age_loop m pgdir [] = ok (m, [])
age_loop m pgdir (page ∷ pages) = do
  (m', page') ← age_page m pgdir page
  (m'', pages') ← age_loop m' pgdir pages
  ok (m'', page' ∷ pages')

unfoldable pub age_pages : Mem → Proc → Outcome (Mem × Proc)
age_pages m p = do
  (m', pages) ← age_loop m p.pgdir p.pages_ds
  ok (m', record p { pages_ds = pages })
