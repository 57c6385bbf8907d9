-- ===== src/Tests/Spaces.antt =====
-- An address space with one page table, and one page for the user at address 0.
use os182_ass.Prelude.{
  ◌==◌, if◌then◌else◌, ℕ, ◌/◌, ◌^◌, ◌≤◌, ◌<◌, ◌≡◌, refl, sym, subst, ◌≢◌, true, false, some, [],
  arith,
}
use os182_ass.Prelude.Outcome.{Outcome, ok}
use os182_ass.Prelude.Bits.{has_bit}
use os182_ass.Memory.{Mem, pgsize}
use os182_ass.Vm.Walk.{walk, IsTree}
use os182_ass.Kalloc.{Kmem}
use os182_ass.Paging.{Proc}
use os182_ass.Space.{dealloc_loop, deallocuvm, clearpteu, uva2ka}
use os182_ass.Space.Access.{clearpteu-uva2ka}
use os182_ass.Space.Ends.{dealloc_loop-ends}
use os182_ass.Space.Frames.{IsUser, IsSpace}
use os182_ass.Space.Dealloc.{Clears, deallocuvm_lem}

abbrev start : ℕ
start = 0x8010_0000

-- The page directory at `start`, its page table at 0x80200000, the page at 0x80300000.
abbrev memory : Mem
memory a = if a == start then 0x20_0007 else if a == 0x8020_0000 then 0x30_0007 else 0

abbrev kmem : Kmem
kmem = record { mem = memory; use_lock = 1; freelist = 0 }

abbrev process : Proc
process = record {
  pid = 3;
  pgdir = start;
  pages_ds = [];
  file_offset = 0;
  number_of_allocated_pages = 0;
  number_of_paged_out = 0;
  number_of_page_faults = 0;
  total_number_of_paged_out = 0;
  in_ram_queue = [];
  available_offset_queue = [];
}

memory-IsTree : IsTree memory start
memory-IsTree = record {
  aligned = refl;
  apart = λ d e ld le hd he same. ground arith;
  outside = λ d ld hd same. ground arith;
}

walk-memory : (va q : ℕ) → walk memory start va ≡ some q → (0x8020_0000 ≤ q) × (q < 0x8020_1000)
unfolding walk
walk-memory va q e = ground (arith, e)

walk-start : walk memory start 0 ≡ some 0x8020_0000
unfolding walk
walk-start = refl

mapped-start : (q : ℕ) → 0x8020_0000 ≤ q → has_bit 0 (memory q) ≡ true → q ≡ 0x8020_0000
mapped-start q from on = ground (arith, on)

start-IsUser : IsUser start memory start 0x8020_0000
start-IsUser = record {
  page = record { aligned = refl; above = ground arith; below = ground arith };
  mapped = λ e. absurd (omega (arith, e));
  no_directory = λ e. absurd (omega (arith, e));
  no_table = λ vb q w e. let (from, to) = walk-memory vb q w in absurd (omega (arith, from, to, e));
}

none_out : (q : ℕ) → has_bit 9 (memory q) ≢ true
none_out q on = ground (arith, on)

memory-IsSpace : IsSpace start memory start
memory-IsSpace = record {
  tree = memory-IsTree;
  frames = λ va q low w on.
      subst (IsUser start memory start) (sym (mapped-start q (walk-memory va q w).0 on))
        start-IsUser;
  swapped_out = λ va q low w on. absurd (none_out q on);
}

clearpteu-uva2ka_example :
    (k' : Kmem) × (clearpteu start 0 kmem ≡ ok k')
    × ((va : ℕ) → va / pgsize ≡ 0 → uva2ka start va k'.mem ≡ ok 0)
    × ((va : ℕ) → va < 2 ^ 32 → va / pgsize ≢ 0 → uva2ka start va k'.mem ≡ uva2ka start va memory)
clearpteu-uva2ka_example = clearpteu-uva2ka start 0 kmem memory-IsTree (omega arith) walk-start

dealloc_loop-ends_example :
    (r : Outcome (Kmem × Proc)) × (dealloc_loop 2 start 0 true start 4096 0 kmem process ≡ some r)
dealloc_loop-ends_example =
    dealloc_loop-ends 1 start 0 true start 4096 0 kmem process (omega arith) refl (omega arith)

deallocuvm_lem_example :
    (k' : Kmem) × (deallocuvm start 0 false start 4096 0 kmem process ≡ ok (0, k', process))
    × IsSpace start k'.mem start
    × Clears start 0 4096 memory k'.mem
deallocuvm_lem_example =
    deallocuvm_lem start 0 start 4096 0 kmem process memory-IsSpace (omega arith) (omega arith)
