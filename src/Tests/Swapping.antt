-- ===== src/Tests/Swapping.antt =====
-- A process with one page at address 0 swaps it out, to a swap file in the blocks 10 to 17, and gets it
-- back.
use os182_ass.Prelude.{
  ltb, ◌==◌, if◌then◌else◌, ℕ, ◌+◌, ◌%◌, ◌≡◌, refl, ◌≢◌, inl, true, none, some, [], ◌∷◌, arith,
}
use os182_ass.Prelude.Outcome.{ok}
use os182_ass.Memory.{Mem}
use os182_ass.Vm.Walk.{walk}
use os182_ass.Kalloc.Chain.{IsPage}
use os182_ass.Paging.{
  Page, Proc, remove_aq, get_free_file_offset, max_psyc_pages, remove_offset_queue,
  fix_offset_queue,
}
use os182_ass.Paging.Queue.{slots, Holds-slots}
use os182_ass.Fs.Inode.{Inode}
use os182_ass.SwapDisk.{SwapDisk}
use os182_ass.SwapDisk.Writing.{IsOpen}
use os182_ass.Swap.{aq, select_page, find_address, Swapping, frame, swap_to_file}
use os182_ass.Swap.Fault.{page_fault, count_in_ram}
use os182_ass.Swap.Out.{SwappedOut, swap_to_file_lem}
use os182_ass.Swap.Back.{FrameFor, CanReturn, PagedIn, page_fault_lem}
use os182_ass.Tests.Files.{small_disk}

abbrev swap_inode : ℕ → Inode
swap_inode size = record {
  inum = 5;
  ref = 1;
  valid = true;
  kind = 2;
  major = 0;
  minor = 0;
  nlink = 1;
  size = size;
  addrs = λ j. if ltb j 8 then 10 + j else 0;
}

abbrev swap_disk : ℕ → SwapDisk
swap_disk size = record {
  ip = swap_inode size;
  fs = record { blocks = λ a o. (a + o) % 256; logged = [] };
}

swap_disk-IsOpen : (size : ℕ) → IsOpen small_disk 8 (swap_disk size).ip (swap_disk size).fs
swap_disk-IsOpen size = record {
  used = omega arith;
  loaded = refl;
  mapped = record {
    in_range = omega arith;
    there = λ b lt e. ground (arith, lt, e);
    indirect_there = λ more. absurd (omega (arith, more));
  };
  apart = record {
    different = λ b c lb lc e. ground (arith, lb, lc, e);
    not_indirect = λ b lb more. absurd (omega (arith, more));
    not_inode = λ b lb e. ground (arith, lb, e);
    indirect_not_inode = λ more. absurd (omega (arith, more));
  };
}

-- The page directory at 0x80001000, its one page table at 0x80002000, the page at 0x80003000.
abbrev one_page : Mem
one_page a = if a == 0x8000_1000 then 0x2001 else if a == 0x8000_2000 then 0x3007 else 5

abbrev first_page : Page
first_page = record { v_address = 0; file_offset = none; in_ram = 1; is_allocated = 1; age = 0 }

abbrev pager : Proc
pager = record {
  pid = 3;
  pgdir = 0x8000_1000;
  pages_ds = first_page ∷ [];
  file_offset = 0;
  number_of_allocated_pages = 1;
  number_of_paged_out = 0;
  number_of_page_faults = 0;
  total_number_of_paged_out = 0;
  in_ram_queue = some 0 ∷ none ∷ [];
  available_offset_queue = none ∷ [];
}

abbrev before : Swapping
before = record {
  kmem = record { mem = one_page; use_lock = 1; freelist = 0 };
  proc = pager;
  file = swap_disk 0;
}

chosen_page : select_page aq one_page pager ≡ ok (0, one_page, (remove_aq pager).1)
unfolding select_page remove_aq
chosen_page = refl

found_page : find_address 0 0 (remove_aq pager).1.pages_ds ≡ some 0
unfolding find_address remove_aq
found_page = refl

page_entry : walk one_page (remove_aq pager).1.pgdir 0 ≡ some 0x8000_2000
unfolding walk remove_aq
page_entry = refl

frame-IsPage : IsPage 0x8000_3000 (frame one_page 0x8000_2000)
frame-IsPage = record { aligned = omega arith; above = omega arith; below = omega arith }

first_offset : (get_free_file_offset (remove_aq pager).1).0 ≡ 0
unfolding get_free_file_offset remove_offset_queue fix_offset_queue remove_aq
first_offset = refl

swap_to_file_lem_example :
    (s' : Swapping) × (swap_to_file small_disk aq 0x8000_3000 (remove_aq pager).1.pgdir before
      ≡ ok (0x8000_3000, s'))
    × SwappedOut small_disk 8 one_page 0x8000_2000 0
        (get_free_file_offset (remove_aq pager).1).0
        before
        s'
swap_to_file_lem_example =
    swap_to_file_lem small_disk aq 0x8000_3000 before 8 0 0 0x8000_2000 chosen_page found_page
      page_entry frame-IsPage (inl (omega arith)) (swap_disk-IsOpen 0) (omega (arith, first_offset))
      (omega (arith, first_offset))

-- The process when its page is in the file.
abbrev page_gone : Page
page_gone = record { v_address = 0; file_offset = some 0; in_ram = 0; is_allocated = 1; age = 0 }

abbrev waiting_pager : Proc
waiting_pager = record pager {
  pages_ds = page_gone ∷ [];
  in_ram_queue = slots [] 16;
  available_offset_queue = slots [] 16;
  number_of_paged_out = 1;
}

abbrev gone : Swapping
gone = record {
  kmem = record {
    mem = λ a. if a == 0x8000_2000 then 0x3206 else one_page a;
    use_lock = 1;
    freelist = 0x8000_4000;
  };
  proc = waiting_pager;
  file = swap_disk 4096;
}

found_gone : find_address 0 0 (page_gone ∷ []) ≡ some 0
unfolding find_address
found_gone = refl

gone_entry : walk gone.kmem.mem 0x8000_1000 4 ≡ some 0x8000_2000
unfolding walk
gone_entry = refl

frame-FrameFor : FrameFor gone.kmem.mem 0x8000_1000 4 0x8000_2000 0x8000_4000
frame-FrameFor = record {
  aligned = omega arith;
  kernel = omega arith;
  word = omega arith;
  entry = gone_entry;
  pte_outside = inl (omega arith);
  pde_outside = inl (omega arith);
  pde_apart = λ e. absurd (omega (arith, e));
}

gone-CanReturn : CanReturn small_disk 4 0 0 8 page_gone [] [] waiting_pager (swap_disk 4096)
gone-CanReturn = record {
  small = omega arith;
  found = found_gone;
  got = refl;
  offset = refl;
  queue = Holds-slots [] 16 refl;
  queue_room = omega arith;
  offsets = Holds-slots [] 16 refl;
  offsets_room = omega arith;
  open_file = swap_disk-IsOpen 4096;
  whole = omega arith;
  inside = omega arith;
}

few_pages : count_in_ram (page_gone ∷ []) ≢ max_psyc_pages
unfolding count_in_ram
few_pages e = absurd (omega (arith, e))

page_fault_lem_example :
    (s' : Swapping) × (page_fault small_disk aq 0x8000_3000 4 gone ≡ ok s')
    × PagedIn 4 0x8000_4000 0 0 0x8000_2000 page_gone [] [] gone s'
page_fault_lem_example =
    page_fault_lem small_disk aq 0x8000_3000 4 gone 0 0 0x8000_2000 8 page_gone [] [] few_pages
      gone-CanReturn frame-FrameFor
