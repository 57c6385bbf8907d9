-- ===== src/Tests/Pages.antt =====
-- A process of the tests: page `i` lies at address `i * 4096`, one page table holds all the entries,
-- and the first `n` of the pages were accessed.
use os182_ass.Prelude.{
  ltb, leb, ◌==◌, if◌then◌else◌, length, get_elem?, All, ℕ, zero, suc, ◌+◌, ◌-◌, ◌*◌, ◌≤◌, ◌<◌, ◌≡◌,
  refl, ap, ◌∙◌, ◌≢◌, true, false, ◌&&◌, none, some, List, [], ◌∷◌, arith,
}
use os182_ass.Memory.{Mem}
use os182_ass.Vm.Walk.{walk, IsTree}
use os182_ass.Paging.{Page, Proc, max_psyc_pages}
use os182_ass.Paging.Queue.{slots, Holds, Holds-slots}
use os182_ass.Paging.Scfifo.Sweep.{accessed, Mapped, Apart, AllApart, Sweepable}

abbrev pub dir : ℕ
dir = 0x8010_0000

-- The page directory has one entry, for the page table at physical address 0x200000.
abbrev pub memory : ℕ → Mem
memory n a =
    if a == dir
    then 0x20_0007
    else if leb 0x8020_0000 a && ltb a (0x8020_0000 + 4 * n)
    then 0x20_1027
    else if leb 0x8020_0000 a && ltb a 0x8020_1000
    then 0x20_1007
    else 0

abbrev pub page_at : ℕ → Page
page_at i = record {
  v_address = i * 4096;
  file_offset = none;
  in_ram = 1;
  is_allocated = 1;
  age = 100 - i;
}

abbrev pub build : ℕ → ℕ → List Page
build zero i = []
build (suc n) i = page_at i ∷ build n (suc i)

abbrev pub range : ℕ → ℕ → List ℕ
range zero i = []
range (suc n) i = i ∷ range n (suc i)

abbrev pub process : List ℕ → Proc
process live = record {
  pid = 3;
  pgdir = dir;
  pages_ds = build 32 0;
  file_offset = 0;
  number_of_allocated_pages = 0;
  number_of_paged_out = 0;
  number_of_page_faults = 0;
  total_number_of_paged_out = 0;
  in_ram_queue = slots live (max_psyc_pages - length live);
  available_offset_queue = slots [] 16;
}

pub tree : (n : ℕ) → n < 512 → IsTree (memory n) dir
tree n small = record {
  aligned = refl;
  apart = λ d e ld le hd he same. ground arith;
  outside = λ d ld hd same. ground arith;
}

build-at : (n i j : ℕ) → j < n → get_elem? (build n i) j ≡ some (page_at (i + j))
build-at zero i j h = absurd (omega arith)
build-at (suc n) i zero h = ap (λ k. some (page_at k)) (omega arith)
build-at (suc n) i (suc j) h =
    build-at n (suc i) j (omega arith) ∙ ap (λ k. some (page_at k)) (omega arith)

build-here : (j : ℕ) → j < 32 → get_elem? (build 32 0) j ≡ some (page_at j)
build-here j h = build-at 32 0 j h ∙ ap (λ k. some (page_at k)) (omega arith)

pub walk-here :
    (n j : ℕ) → n < 512 → j < 32 → walk (memory n) dir (j * 4096) ≡ some (0x8020_0000 + 4 * j)
unfolding walk
walk-here n j small h = ground arith

mapped : (n j : ℕ) → n < 512 → j < 32 → Mapped (memory n) dir (build 32 0) j
mapped n j small h = record {
  page = page_at j;
  pte = 0x8020_0000 + 4 * j;
  here = build-here j h;
  walks = walk-here n j small h;
  fits = omega arith;
}

apart : (i j : ℕ) → i < 32 → j < 32 → i ≢ j → Apart (build 32 0) i j
apart i j hi hj ne a b ea eb same = ground (arith, build-here i hi, build-here j hj)

All-Mapped :
    (n k i : ℕ) → n < 512 → i + k ≤ 32 → All (Mapped (memory n) dir (build 32 0)) (range k i)
All-Mapped n zero i small h = tt
All-Mapped n (suc k) i small h =
    (mapped n i small (omega arith), All-Mapped n k (suc i) small (omega arith))

Apart-from : (x k i : ℕ) → x < i → i + k ≤ 32 → All (Apart (build 32 0) x) (range k i)
Apart-from x zero i lt h = tt
Apart-from x (suc k) i lt h = (
  apart x i (omega arith) (omega arith) (omega arith),
  Apart-from x k (suc i) (omega arith) (omega arith),
)

AllApart-build : (k i : ℕ) → i + k ≤ 32 → AllApart (build 32 0) (range k i)
AllApart-build zero i h = tt
AllApart-build (suc k) i h =
    (Apart-from i k (suc i) (omega arith) (omega arith), AllApart-build k (suc i) (omega arith))

pub sweepable : (n k : ℕ) → n < 512 → k ≤ 32 → Sweepable (memory n) dir (build 32 0) (range k 0)
sweepable n k small h = record {
  tree = tree n small;
  mapped = All-Mapped n k 0 small (omega arith);
  far = AllApart-build k 0 (omega arith);
}

length-range : (k i : ℕ) → length (range k i) ≡ k
length-range zero i = refl
length-range (suc k) i = ap suc (length-range k (suc i))

pub holds : (k : ℕ) → k ≤ 16 → Holds (process (range k 0)).in_ram_queue (range k 0)
holds k h = Holds-slots (range k 0) (16 - length (range k 0)) (omega (arith, length-range k 0))

pub accessed_at :
    (n j : ℕ) → n ≤ j → n < 512 → j < 32 → accessed (memory n) dir (build 32 0) j ≡ false
accessed_at n j h small hj = ground (arith, build-here j hj, walk-here n j small hj)

pub accessed_below :
    (n j : ℕ) → j < n → n < 512 → j < 32 → accessed (memory n) dir (build 32 0) j ≡ true
accessed_below n j h small hj = ground (arith, build-here j hj, walk-here n j small hj)

pub All-accessed :
    (k i : ℕ) → i + k ≤ 32 → All (λ x. accessed (memory 32) dir (build 32 0) x ≡ true) (range k i)
All-accessed zero i h = tt
All-accessed (suc k) i h = (
  accessed_below 32 i (omega arith) (omega arith) (omega arith),
  All-accessed k (suc i) (omega arith),
)

length-build : (n i : ℕ) → length (build n i) ≡ n
length-build zero i = refl
length-build (suc n) i = ap suc (length-build n (suc i))

pub pages_there : (k i : ℕ) → i + k ≤ 32 → All (λ x. x < length (build 32 0)) (range k i)
pages_there zero i h = tt
pages_there (suc k) i h = (omega (arith, length-build 32 0), pages_there k (suc i) (omega arith))
