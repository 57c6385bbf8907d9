-- ===== src/Swap/Back.antt =====
-- What a page fault leaves: the page of the swap file in a frame that the process reads.
use os182_ass.Prelude.{
  ◌==◌, if◌then◌else◌, length, get_elem?, set, ℕ, ◌+◌, ◌-◌, ◌*◌, ◌%◌, ◌^◌, ◌≤◌, ◌<◌, ◌≡◌, refl, ap,
  ap₂, ◌∙◌, ◌≢◌, ◌⊎◌, true, false, none, some, List, [], ◌∷◌, ◌++◌, arith,
}
use os182_ass.Prelude.Outcome.{ok}
use os182_ass.Prelude.Bits.{has_bit, bit_off}
use os182_ass.Prelude.BitLaws.{has_bit-bit_on_ne, has_bit-bit_off_self}
use os182_ass.Memory.{
  Mem, fill_page, write, write_self, write_ne, pgsize, pgrounddown, kernbase, p2v, v2p,
}
use os182_ass.Vm.Walk.{walk, pdx, ptx, pte_addr, pde_ptr}
use os182_ass.Vm.Map.{mappages, pte_for, mappages-one}
use os182_ass.Paging.{Page, Proc, max_psyc_pages, insert, insert_offset_queue}
use os182_ass.Paging.Queue.{Holds, insert_loop-Holds}
use os182_ass.Fs.{bsize, Superblock}
use os182_ass.Fs.Inode.Content.{content}
use os182_ass.Kalloc.{Kmem, kalloc}
use os182_ass.SwapDisk.{SwapDisk, word_at}
use os182_ass.SwapDisk.Writing.{IsOpen}
use os182_ass.SwapDisk.Reading.{PageLoaded, read_page-PageLoaded}
use os182_ass.Swap.{Policy, find_address, Swapping, swapped, frame}
use os182_ass.Swap.Fault.{
  load_page, user_flags, returned, page_back, page_in, count_in_ram, make_room, page_fault,
}

walk-ext :
    (m m' : Mem) (pgdir va : ℕ)
    → m' (pde_ptr pgdir va) ≡ m (pde_ptr pgdir va)
    → walk m' pgdir va ≡ walk m pgdir va
unfolding walk
walk-ext m m' pgdir va e =
    ap (λ w. if has_bit 0 w then some (p2v (pte_addr w) + 4 * ptx va) else none) e

walk-pgrounddown : (m : Mem) (pgdir va : ℕ) → walk m pgdir (pgrounddown va) ≡ walk m pgdir va
unfolding walk
walk-pgrounddown m pgdir va =
    let d : pdx (pgrounddown va) ≡ pdx va = omega arith in
    let t : ptx (pgrounddown va) ≡ ptx va = omega arith in
    ap₂
      (λ a b.
        if has_bit 0 (m (pgdir + 4 * a))
        then some (p2v (pte_addr (m (pgdir + 4 * a))) + 4 * b)
        else none)
      d t

swapped-not_present : (w : ℕ) → has_bit 0 (swapped w) ≡ false
swapped-not_present w =
    has_bit-bit_on_ne 9 0 (bit_off 0 w) (λ e. omega (arith, e)) ∙ has_bit-bit_off_self 0 w

returned-mapped :
    (v : ℕ)
    → v % pgsize ≡ 0
    → kernbase ≤ v
    → v < 2 ^ 32
    → returned (pte_for (v2p v) user_flags) ≡ v2p v + 7
returned-mapped v al lo hi = ground (arith, al, lo, hi)

frame-mapped : (v : ℕ) → v % pgsize ≡ 0 → kernbase ≤ v → v < 2 ^ 32 → p2v (pte_addr (v2p v + 7)) ≡ v
frame-mapped v al lo hi = omega (arith, al, lo, hi)

-- The frame at `v` is a page of the direct map, away from the table entries for `va`.
pub record FrameFor (s : ℕ → ℕ) (pgdir va pte v : ℕ) : Type 0 where
  pub aligned : v % pgsize ≡ 0
  pub kernel : kernbase ≤ v
  pub word : v < 2 ^ 32
  pub entry : walk s pgdir va ≡ some pte
  pub pte_outside : (pte < v) ⊎ (v + pgsize ≤ pte)
  pub pde_outside : (pde_ptr pgdir va < v) ⊎ (v + pgsize ≤ pde_ptr pgdir va)
  pub pde_apart : pde_ptr pgdir va ≢ pte

fill_page-outside : (m : Mem) (v w a : ℕ) → (a < v) ⊎ (v + pgsize ≤ a) → fill_page m v w a ≡ m a
unfolding fill_page
fill_page-outside m v w a out = ground (arith, out)

load_page-PageLoaded :
    (sb : Superblock) (off v : ℕ) (d : SwapDisk) (m : Mem) (nb : ℕ)
    → IsOpen sb nb d.ip d.fs
    → off + pgsize ≤ d.ip.size
    → d.ip.size ≤ bsize * nb
    → (m' : Mem) × (load_page sb (some off) v d m ≡ ok (m', d)) × PageLoaded v off d m m'
unfolding load_page
load_page-PageLoaded sb off v d m nb opened whole inside =
    let (m', runs, l) = read_page-PageLoaded sb v off (fill_page m v 0) d nb opened whole inside in
    (
      m',
      runs,
      record { words = l.words; others = λ a out. l.others a out ∙ fill_page-outside m v 0 a out },
    )

-- The process after its page `i`, with the offset `off` in the file, came back.
pub record IsBack (i off : ℕ) (page : Page) (live avail : List ℕ) (p p' : Proc) : Type 0 where
  pub pages : p'.pages_ds ≡ set p.pages_ds i (record page { in_ram = 1; file_offset = none })
  pub queue : Holds p'.in_ram_queue (live ++ i ∷ [])
  pub offsets : Holds p'.available_offset_queue (avail ++ off ∷ [])

page_back-IsBack :
    (i off : ℕ) (page : Page) (live avail : List ℕ) (p : Proc)
    → page.file_offset ≡ some off
    → Holds p.in_ram_queue live
    → length live < max_psyc_pages
    → Holds p.available_offset_queue avail
    → length avail < max_psyc_pages
    → (p' : Proc) × (page_back i page p ≡ ok p') × IsBack i off page live avail p p'
unfolding page_back insert_offset_queue insert
page_back-IsBack i off page live avail p at h lt free few =
    let (q, gives, held_q) = insert_loop-Holds off free few in
    let (r, enters, held_r) = insert_loop-Holds i h lt in
    (
      record p {
        pages_ds = set p.pages_ds i (record page { in_ram = 1; file_offset = none });
        in_ram_queue = r;
        available_offset_queue = q;
        number_of_paged_out = (p.number_of_paged_out + (2 ^ 32 - 1)) % 2 ^ 32;
      },
      rw (at, gives, enters) refl,
      record { pages = refl; queue = held_r; offsets = held_q },
    )

-- What a page fault at `va` leaves: the entry at `pte` is present and leads to the frame `v`, whose
-- words are those of the file from `off` on.
pub record PagedIn (va v i off pte : ℕ) (page : Page) (live avail : List ℕ) (s s' : Swapping)
    : Type 0 where
  pub process : IsBack i off page live avail s.proc s'.proc
  pub same_file : s'.file ≡ s.file
  pub entry : walk s'.kmem.mem s.proc.pgdir va ≡ some pte
  pub present : has_bit 0 (s'.kmem.mem pte) ≡ true
  pub at_frame : frame s'.kmem.mem pte ≡ v
  pub words :
      (k : ℕ)
      → k < 1024
      → s'.kmem.mem (v + 4 * k) ≡ word_at (content s.file.ip s.file.fs) (off + 4 * k)

-- The faulting page of a process: it is page `i`, in the open swap file at `off`, its table is there,
-- and the queues have room for it and for its offset.
pub record CanReturn (sb : Superblock) (va i off nb : ℕ) (page : Page) (live avail : List ℕ)
    (p : Proc) (d : SwapDisk) : Type 0 where
  pub small : va < 2 ^ 32
  pub found : find_address (pgrounddown va) 0 p.pages_ds ≡ some i
  pub got : get_elem? p.pages_ds i ≡ some page
  pub offset : page.file_offset ≡ some off
  pub queue : Holds p.in_ram_queue live
  pub queue_room : length live < max_psyc_pages
  pub offsets : Holds p.available_offset_queue avail
  pub offsets_room : length avail < max_psyc_pages
  pub open_file : IsOpen sb nb d.ip d.fs
  pub whole : off + pgsize ≤ d.ip.size
  pub inside : d.ip.size ≤ bsize * nb

page_in-runs :
    (sb : Superblock) (va v : ℕ) (s : Swapping) {i pte : ℕ} {page : Page} {m : Mem} {d : SwapDisk}
    {k : Kmem} {p' : Proc}
    → find_address (pgrounddown va) 0 s.proc.pages_ds ≡ some i
    → get_elem? s.proc.pages_ds i ≡ some page
    → load_page sb page.file_offset v s.file s.kmem.mem ≡ ok (m, d)
    → walk m s.proc.pgdir va ≡ some pte
    → mappages s.proc.pgdir
        (pgrounddown va)
        pgsize
        (v2p v)
        user_flags
        (record s.kmem { mem = write m pte (swapped (m pte)) })
      ≡ ok (true, k)
    → page_back i page s.proc ≡ ok p'
    → page_in sb va v s
      ≡ ok (record {
        kmem = record k { mem = write k.mem pte (returned (k.mem pte)) };
        proc = p';
        file = d;
      })
unfolding page_in
page_in-runs sb va v s found got loads at maps back =
    rw (found, page_in)
      (rw (got, page_in)
        (rw (loads, page_in) (rw (at, page_in) (rw (maps, page_in) (rw (back, page_in) refl)))))

page_in_lem :
    (sb : Superblock) (va v : ℕ) (s : Swapping) (i off pte nb : ℕ) (page : Page)
    (live avail : List ℕ)
    → CanReturn sb va i off nb page live avail s.proc s.file
    → FrameFor s.kmem.mem s.proc.pgdir va pte v
    → (s' : Swapping) × (page_in sb va v s ≡ ok s') × PagedIn va v i off pte page live avail s s'
page_in_lem sb va v s i off pte nb page live avail r fr =
    let (p', back, is_back) =
      page_back-IsBack i off page live avail s.proc r.offset r.queue r.queue_room r.offsets
        r.offsets_room in
    let (m, loads, l) =
      load_page-PageLoaded sb off v s.file s.kmem.mem nb r.open_file r.whole r.inside in
    (
      record { kmem = record s.kmem { mem = m3 m }; proc = p'; file = s.file },
      page_in-runs sb va v s r.found r.got
          (ap (λ o. load_page sb o v s.file s.kmem.mem) r.offset ∙ loads) (entry0 m l) (one m l)
          back,
      record {
        process = is_back;
        same_file = refl;
        entry =
            walk-ext s.kmem.mem (m3 m) dir va
              (keep3 m (pde_ptr dir va) fr.pde_apart ∙ l.others (pde_ptr dir va) fr.pde_outside)
            ∙ fr.entry;
        present = ap (has_bit 0) (final m) ∙ present_bit;
        at_frame =
            ap (λ w. p2v (pte_addr w)) (final m) ∙ frame-mapped v fr.aligned fr.kernel fr.word;
        words = λ k lt. keep3 m (v + 4 * k) (outside k lt) ∙ l.words k lt;
      },
    )
  where
    dir : ℕ
    dir = s.proc.pgdir

    m1 : Mem → Mem
    m1 m = write m pte (swapped (m pte))

    m2 : Mem → Mem
    m2 m = write (m1 m) pte (pte_for (v2p v) user_flags)

    m3 : Mem → Mem
    m3 m = write (m2 m) pte (returned (m2 m pte))

    entry0 : (m : Mem) → PageLoaded v off s.file s.kmem.mem m → walk m dir va ≡ some pte
    entry0 m l = walk-ext s.kmem.mem m dir va (l.others (pde_ptr dir va) fr.pde_outside) ∙ fr.entry

    entry1 :
        (m : Mem)
        → PageLoaded v off s.file s.kmem.mem m
        → walk (m1 m) dir (pgrounddown va) ≡ some pte
    entry1 m l =
        walk-pgrounddown (m1 m) dir va
        ∙ walk-ext m (m1 m) dir va (write_ne m pte (swapped (m pte)) (pde_ptr dir va) fr.pde_apart)
        ∙ entry0 m l

    one :
        (m : Mem)
        → PageLoaded v off s.file s.kmem.mem m
        → mappages dir (pgrounddown va) pgsize (v2p v) user_flags (record s.kmem { mem = m1 m })
          ≡ ok (true, record s.kmem { mem = m2 m })
    one m l =
        mappages-one dir (pgrounddown va) (v2p v) user_flags (record s.kmem { mem = m1 m })
          (omega (arith, r.small)) (omega arith) (entry1 m l)
          (ap (has_bit 0) (write_self m pte (swapped (m pte))) ∙ swapped-not_present (m pte))

    keep3 : (m : Mem) (a : ℕ) → a ≢ pte → m3 m a ≡ m a
    keep3 m a ne =
        write_ne (m2 m) pte (returned (m2 m pte)) a ne
        ∙ write_ne (m1 m) pte (pte_for (v2p v) user_flags) a ne
        ∙ write_ne m pte (swapped (m pte)) a ne

    final : (m : Mem) → m3 m pte ≡ v2p v + 7
    final m =
        write_self (m2 m) pte (returned (m2 m pte))
        ∙ ap returned (write_self (m1 m) pte (pte_for (v2p v) user_flags))
        ∙ returned-mapped v fr.aligned fr.kernel fr.word

    present_bit : has_bit 0 (v2p v + 7) ≡ true
    present_bit = ground (arith, fr.aligned, fr.kernel, fr.word)

    outside : (k : ℕ) → k < 1024 → v + 4 * k ≢ pte
    outside k lt e = ground (arith, fr.pte_outside, lt, e)

-- The process with one page fault more.
abbrev faulted : Proc → Proc
faulted p = record p { number_of_page_faults = (p.number_of_page_faults + 1) % 2 ^ 32 }

page_fault-runs :
    (sb : Superblock) (policy : Policy) (kernel_end va : ℕ) (s : Swapping) {s' : Swapping}
    → (count_in_ram s.proc.pages_ds == max_psyc_pages) ≡ false
    → (s.kmem.freelist == 0) ≡ false
    → page_in sb va s.kmem.freelist (record s {
      kmem = record s.kmem { freelist = s.kmem.mem s.kmem.freelist };
      proc = faulted s.proc;
    })
      ≡ ok s'
    → page_fault sb policy kernel_end va s ≡ ok s'
unfolding page_fault make_room kalloc
page_fault-runs sb policy kernel_end va s room some_page runs =
    rw (room, make_room) (rw (some_page, kalloc) (rw (some_page, kalloc) runs))

-- A page fault at `va`, a word, of a process that has fewer pages in memory than it may. Let the
-- faulting page be recorded in `pagesDS`, its table be there, and its contents lie in the open swap file
-- at `off`, within the size of the file, the blocks up to which are on the disk; let the queue of
-- pages and the queue of offsets have room, and let the free list begin with a page of the direct map
-- apart from the directory and table entries of `va`, which are apart, too. Then the fault ends with
-- the entry of the page present and for that frame, the words of the frame are those of the file, the
-- page is behind the others in the queue, and its offset behind the free ones.
pub page_fault_lem :
    (sb : Superblock) (policy : Policy) (kernel_end va : ℕ) (s : Swapping) (i off pte nb : ℕ)
    (page : Page) (live avail : List ℕ)
    → count_in_ram s.proc.pages_ds ≢ max_psyc_pages
    → CanReturn sb va i off nb page live avail s.proc s.file
    → FrameFor s.kmem.mem s.proc.pgdir va pte s.kmem.freelist
    → (s' : Swapping) × (page_fault sb policy kernel_end va s ≡ ok s')
      × PagedIn va s.kmem.freelist i off pte page live avail s s'
page_fault_lem sb policy kernel_end va s i off pte nb page live avail few r fr =
    let v = s.kmem.freelist in
    let start : Swapping = record s {
      kmem = record s.kmem { freelist = s.kmem.mem v };
      proc = faulted s.proc;
    } in
    let room : (count_in_ram s.proc.pages_ds == max_psyc_pages) ≡ false = ground (arith, few) in
    let some_page : (v == 0) ≡ false = ground (arith, fr.kernel) in
    let r' : CanReturn sb va i off nb page live avail start.proc start.file = record {
      small = r.small;
      found = r.found;
      got = r.got;
      offset = r.offset;
      queue = r.queue;
      queue_room = r.queue_room;
      offsets = r.offsets;
      offsets_room = r.offsets_room;
      open_file = r.open_file;
      whole = r.whole;
      inside = r.inside;
    } in
    let (s', runs, x) = page_in_lem sb va v start i off pte nb page live avail r' fr in
    (
      s',
      page_fault-runs sb policy kernel_end va s room some_page runs,
      record {
        process = record {
          pages = x.process.pages;
          queue = x.process.queue;
          offsets = x.process.offsets;
        };
        same_file = x.same_file;
        entry = x.entry;
        present = x.present;
        at_frame = x.at_frame;
        words = x.words;
      },
    )
