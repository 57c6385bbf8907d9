-- ===== src/Tests/Victims.antt =====
-- The queues of resident pages and of free offsets, and the choice of a victim.
use os182_ass.Prelude.{
  length, get_elem?, remove_at, ℕ, ◌-◌, ◌≡◌, refl, false, some, List, [], ◌∷◌, arith,
}
use os182_ass.Prelude.Outcome.{ok}
use os182_ass.Paging.{Page, Proc, max_psyc_pages, fix_queue}
use os182_ass.Paging.Queue.{slots, Holds, Holds-slots}
use os182_ass.Paging.Scfifo.{remove_scfifo}
use os182_ass.Paging.Scfifo.Sweep.{clear_all, AllBits}
use os182_ass.Paging.Scfifo.Choice.{
  Evicts, remove_scfifo-Found, remove_scfifo-All, remove_scfifo-Evicts,
}
use os182_ass.Paging.Aging.{remove_nfua, remove_lapa}
use os182_ass.Paging.Aging.Least.{IsFirstLeast, age_of}
use os182_ass.Paging.Aging.Nfua.{remove_nfua-least}
use os182_ass.Paging.Aging.Lapa.{lapa_key, remove_lapa-least}
use os182_ass.Paging.Pages.{freed_page}
use os182_ass.Paging.Pages.Offsets.{OffsetsValid, Handed, get_free_file_offset-Handed}
use os182_ass.Tests.Pages.{
  dir, memory, page_at, build, range, process, sweepable, holds, accessed_at, accessed_below,
  All-accessed, pages_there,
}

remove_scfifo-Found_example :
    (p' : Proc) × (remove_scfifo (memory 2) (process (range 5 0))
      ≡ ok (some 2, clear_all (memory 2) dir (build 32 0) (0 ∷ 1 ∷ []), p'))
    × (p' ≡ record (process (range 5 0)) { in_ram_queue = p'.in_ram_queue })
    × Holds p'.in_ram_queue (3 ∷ 4 ∷ 0 ∷ 1 ∷ [])
    × AllBits
        (clear_all (memory 2) dir (build 32 0) (0 ∷ 1 ∷ []))
        dir
        (build 32 0)
        false
        (0 ∷ 1 ∷ [])
remove_scfifo-Found_example =
    remove_scfifo-Found (0 ∷ 1 ∷ []) (3 ∷ 4 ∷ []) 2 (holds 5 (omega arith))
      (sweepable 2 5 (omega arith) (omega arith))
      (
        accessed_below 2 0 (omega arith) (omega arith) (omega arith),
        (accessed_below 2 1 (omega arith) (omega arith) (omega arith), tt),
      )
      (accessed_at 2 2 (omega arith) (omega arith) (omega arith))

remove_scfifo-All_example :
    (p' : Proc) × (remove_scfifo (memory 32) (process (range 16 0))
      ≡ ok (some 0, clear_all (memory 32) dir (build 32 0) (range 16 0), p'))
    × (p' ≡ record (process (range 16 0)) { in_ram_queue = p'.in_ram_queue })
    × Holds p'.in_ram_queue (range 15 1)
    × AllBits
        (clear_all (memory 32) dir (build 32 0) (range 16 0))
        dir
        (build 32 0)
        false
        (range 16 0)
remove_scfifo-All_example =
    remove_scfifo-All 0 (range 15 1) (holds 16 (omega arith)) refl
      (sweepable 32 16 (omega arith) (omega arith)) (All-accessed 16 0 (omega arith))

remove_scfifo-Evicts_example : Evicts (memory 3) (process (range 16 0)) (range 16 0)
remove_scfifo-Evicts_example =
    remove_scfifo-Evicts (range 16 0) (holds 16 (omega arith)) refl
      (sweepable 3 16 (omega arith) (omega arith))

remove_nfua-least_example :
    (i v : ℕ) × (get_elem? (range 16 0) i ≡ some v)
    × IsFirstLeast (age_of (build 32 0) (range 16 0)) max_psyc_pages i
    × (remove_nfua (process (range 16 0))
        ≡ ok (
          some v,
          record (process (range 16 0)) {
            in_ram_queue = fix_queue i (process (range 16 0)).in_ram_queue;
          },
        ))
    × Holds (fix_queue i (process (range 16 0)).in_ram_queue) (remove_at i (range 16 0))
remove_nfua-least_example =
    remove_nfua-least (range 16 0) (holds 16 (omega arith)) refl (pages_there 16 0 (omega arith))

remove_lapa-least_example :
    (i v : ℕ) × (get_elem? (range 16 0) i ≡ some v)
    × IsFirstLeast (λ j. lapa_key (age_of (build 32 0) (range 16 0) j)) max_psyc_pages i
    × (remove_lapa (process (range 16 0))
        ≡ ok (
          some v,
          record (process (range 16 0)) {
            in_ram_queue = fix_queue i (process (range 16 0)).in_ram_queue;
          },
        ))
    × Holds (fix_queue i (process (range 16 0)).in_ram_queue) (remove_at i (range 16 0))
remove_lapa-least_example =
    remove_lapa-least (range 16 0) (holds 16 (omega arith)) refl (pages_there 16 0 (omega arith))

-- A process with page 0 in RAM, page 1 swapped out to offset 4096 and page 2 not allocated.
abbrev swapped_page : Page
swapped_page = record {
  v_address = 4096;
  file_offset = some 4096;
  in_ram = 0;
  is_allocated = 1;
  age = 0;
}

abbrev swapper : List ℕ → Proc
swapper avail = record (process (0 ∷ [])) {
  pages_ds = page_at 0 ∷ swapped_page ∷ freed_page 0 ∷ [];
  file_offset = 12288;
  available_offset_queue = slots avail (16 - length avail);
}

offsets_valid : OffsetsValid (swapper (8192 ∷ 0 ∷ [])) (8192 ∷ 0 ∷ [])
offsets_valid = record {
  queue = Holds-slots (8192 ∷ 0 ∷ []) 14 refl;
  unique = λ a. ground arith;
  handed_out = λ a h. ground arith;
  slots = λ a h. ground (arith, h);
  next_slot = refl;
}

get_free_file_offset-Handed_example : Handed (swapper (8192 ∷ 0 ∷ [])) (8192 ∷ 0 ∷ [])
get_free_file_offset-Handed_example =
    get_free_file_offset-Handed (8192 ∷ 0 ∷ []) offsets_valid (omega arith)
