-- ===== src/Paging/Pages.antt =====
-- `deallocatePage` and `advanceQueue` of proc.c.
pub mod Offsets
pub mod Removal
use os182_ass.Prelude.{
  ltb, ◌==◌, if◌then◌else◌, get_elem?, get_or, set, ℕ, zero, suc, ◌-◌, ◌≡◌, refl, not, ◌&&◌, Option,
  none, some, List, [], ◌∷◌,
}
use os182_ass.Prelude.Outcome.{Outcome, ok, panic, fault, ◌>>=◌, ◌>>◌, deref}
use os182_ass.Prelude.Bits.{has_bit}
use os182_ass.Memory.{Mem}
use os182_ass.Vm.Walk.{walk}
use os182_ass.Paging.{Slot, Page, Proc, max_psyc_pages, fix_queue, insert_offset_queue}

-- The first index of an allocated page at `va`, from index `i` on; `none` is the end of the array.
unfoldable pub find_page : ℕ → ℕ → List Page → Option ℕ
find_page va i [] = none
find_page va i (page ∷ pages) =
    if not (page.is_allocated == 0) && (page.v_address == va)
    then some i
    else find_page va (suc i) pages

-- The page after `deallocatePage`; `age0` is the age of an unused page under the policy in force,
-- 0xFFFFFFFF under LAPA and 0 under the others.
abbrev pub freed_page : ℕ → Page
freed_page age0 = record {
  v_address = 0;
  file_offset = none;
  in_ram = 0;
  is_allocated = 0;
  age = age0;
}

-- The loop over the queue: `fixQueue` at the first slot that holds `idx`. The list is `q[i..16)`,
-- and `whole` the queue.
unfoldable pub drop_index : ℕ → ℕ → List Slot → List Slot → List Slot
drop_index idx i [] whole = whole
drop_index idx i (none ∷ q) whole = drop_index idx (suc i) q whole
drop_index idx i (some x ∷ q) whole =
    if x == idx then fix_queue i whole else drop_index idx (suc i) q whole

-- A page that is not in RAM hands its offset back.
unfoldable pub release_offset : Page → Proc → Outcome Proc
release_offset page p = if page.in_ram == 0 then insert_offset_queue page.file_offset p else ok p

unfoldable pub deallocate_page : ℕ → ℕ → Proc → Outcome Proc
deallocate_page age0 va p = elim (find_page va 0 p.pages_ds) [
  | none ↦ panic
  | some i ↦ do
    page ← deref (get_elem? p.pages_ds i)
    p' ← release_offset page p
    ok (record p' {
      pages_ds = set p'.pages_ds i (freed_page age0);
      in_ram_queue = drop_index i 0 p'.in_ram_queue p'.in_ram_queue;
    })
]

-- The body of the loop of `advanceQueue` at `i`: the page at `i` and the one before it change
-- places, if the latter was accessed and the former was not.
unfoldable pub advance_step : ℕ → Mem → Proc → Outcome Proc
advance_step i m p = elim (get_or p.in_ram_queue i none) [
  | none ↦ ok p
  | some curr ↦ do
    prev ← deref (get_or p.in_ram_queue (i - 1) none)
    curr_page ← deref (get_elem? p.pages_ds curr)
    prev_page ← deref (get_elem? p.pages_ds prev)
    pte_curr ← deref (walk m p.pgdir curr_page.v_address)
    pte_pre ← deref (walk m p.pgdir prev_page.v_address)
    if has_bit 5 (m pte_pre) && not (has_bit 5 (m pte_curr))
        then ok
            (record p { in_ram_queue = set (set p.in_ram_queue i (some prev)) (i - 1) (some curr) })
        else ok p
]

-- `for(i = MAX_PSYC_PAGES - 1; i < 0; i--)`: the rounds bound the loop, whose test is the code's.
unfoldable pub advance_loop : ℕ → ℕ → Mem → Proc → Outcome Proc
advance_loop zero i m p = ok p
advance_loop (suc rounds) i m p =
    if ltb i 0 then (advance_step i m p >>= λ p'. advance_loop rounds (i - 1) m p') else ok p

unfoldable pub advance_queue : Mem → Proc → Outcome Proc
advance_queue m p = advance_loop max_psyc_pages (max_psyc_pages - 1) m p

-- The test fails at once, so `advanceQueue` never moves a page.
advance_queue-id : (m : Mem) (p : Proc) → advance_queue m p ≡ ok p
unfolding advance_queue advance_loop
advance_queue-id m p = refl
