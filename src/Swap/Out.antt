-- ===== src/Swap/Out.antt =====
-- What `swapToFile` leaves: the page in the file, its frame free and its entry marked.
use os182_ass.Prelude.{
  Option-cases, length, get_elem?, get_or, get_elem?-set_self, ℕ, suc, ◌+◌, ◌*◌, ◌≤◌, ◌<◌, ◌≡◌,
  refl, sym, ap, ap₂, ◌∙◌, subst, ◌⊎◌, inl, inr, true, false, none, some, List, [], ◌∷◌, arith,
  ℕ_discrete,
}
use os182_ass.Prelude.Outcome.{ok}
use os182_ass.Prelude.Bits.{has_bit, bit_off}
use os182_ass.Prelude.BitLaws.{has_bit-bit_on_ne, has_bit-bit_on_self, has_bit-bit_off_self}
use os182_ass.Memory.{Mem, write, write_self, write_ne, fill_page, pgsize, p2v}
use os182_ass.Vm.Walk.{walk, pte_addr}
use os182_ass.Kalloc.{Kmem, kfree, junk}
use os182_ass.Kalloc.Chain.{IsPage}
use os182_ass.Paging.{Page, Proc, get_free_file_offset, remove_offset_queue, fix_offset_queue}
use os182_ass.Fs.{bsize, Superblock}
use os182_ass.SwapDisk.{SwapDisk}
use os182_ass.SwapDisk.Writing.{IsOpen, PageStored, write_page-PageStored}
use os182_ass.Swap.{
  Policy, select_page, find_address, Swapping, swapped, frame, paged_out, swap_to_file,
}

find_address-some :
    (va i : ℕ) (pages : List Page) {k : ℕ}
    → find_address va i pages ≡ some k
    → (j : ℕ) × (k ≡ i + j)
      × (j < length pages)
      × (page : Page) × (get_elem? pages j ≡ some page)
      × (page.v_address ≡ va)
unfolding find_address
find_address-some va i [] e = absurd cc
find_address-some va i (page ∷ pages) {k} e = elim (ℕ_discrete page.v_address va) [
  | yes same ↦
      let at : i ≡ k = ground (arith, e, same) in
      (0, omega (arith, at), omega arith, page, refl, same)
  | no ne ↦
      let (j, at, lt, found, get, addr) =
        find_address-some va (suc i) pages {k = k} (ground (arith, e, ne)) in
      (suc j, omega (arith, at), omega (arith, lt), found, get, addr)
]

remove_offset_queue-keeps :
    (p : Proc)
    → ((remove_offset_queue p).1.pages_ds ≡ p.pages_ds)
      × ((remove_offset_queue p).1.pgdir ≡ p.pgdir)
unfolding remove_offset_queue fix_offset_queue
remove_offset_queue-keeps p = elim (Option-cases (get_or p.available_offset_queue 0 none)) [
  | inl no_offset ↦
      (rw (no_offset, remove_offset_queue) refl, rw (no_offset, remove_offset_queue) refl)
  | inr (o, e) ↦ (rw (e, remove_offset_queue) refl, rw (e, remove_offset_queue) refl)
]

get_free_file_offset-keeps :
    (p : Proc)
    → ((get_free_file_offset p).1.pages_ds ≡ p.pages_ds)
      × ((get_free_file_offset p).1.pgdir ≡ p.pgdir)
unfolding get_free_file_offset
get_free_file_offset-keeps p =
    let (pages, dir) = remove_offset_queue-keeps p in
    elim (Option-cases (remove_offset_queue p).0) [
      | inl no_offset ↦
          (rw (no_offset, get_free_file_offset) pages, rw (no_offset, get_free_file_offset) dir)
      | inr (o, e) ↦ (rw (e, get_free_file_offset) pages, rw (e, get_free_file_offset) dir)
    ]

pte_addr-swapped : (w : ℕ) → pte_addr (swapped w) ≡ pte_addr w
pte_addr-swapped w = ground arith

pub kfree-IsPage :
    {kernel_end : ℕ} (v : ℕ) (k : Kmem)
    → IsPage kernel_end v
    → kfree kernel_end v k
      ≡ ok (record k { mem = write (fill_page k.mem v junk) v k.freelist; freelist = v })
unfolding kfree
kfree-IsPage v k page = ground (arith, page.aligned, page.above, page.below)

fill_page-outside : (m : Mem) (v w a : ℕ) → (a < v) ⊎ (v + pgsize ≤ a) → fill_page m v w a ≡ m a
unfolding fill_page
fill_page-outside m v w a out = ground (arith, out)

-- The state after `swapToFile` of page `i`, whose entry is at `pte`, to `offset`.
pub record SwappedOut (sb : Superblock) (nb : ℕ) (m : Mem) (pte i offset : ℕ) (s s' : Swapping)
    : Type 0 where
  pub stored : PageStored sb nb (frame m pte) offset m s.file s'.file
  pub entry : s'.kmem.mem pte ≡ swapped (m pte)
  pub not_present : has_bit 0 (s'.kmem.mem pte) ≡ false
  pub in_file : has_bit 9 (s'.kmem.mem pte) ≡ true
  pub freed : s'.kmem.freelist ≡ frame m pte
  pub page : Page
  pub recorded : get_elem? s'.proc.pages_ds i ≡ some page
  pub page_offset : page.file_offset ≡ some offset
  pub page_in_ram : page.in_ram ≡ 0

-- Let the policy have chosen the page at `address`, let `i` be its place in `pagesDS`, and let its
-- table entry point to a frame that `kfree` takes, apart from the entry. Let the swap file be open with
-- its first `nb` blocks on the disk, and the offset that the page takes not behind the end of the file,
-- with room for a page in these blocks. Then `swapToFile` of the page directory of the process returns
-- the frame: the contents of the page are in the file at the offset it took and the page remembers
-- that offset, all other bytes of these blocks stay as they are, the frame heads the free list, and
-- the entry says that the page is not present but in the file.
pub swap_to_file_lem :
    (sb : Superblock) (policy : Policy) (kernel_end : ℕ) (s : Swapping) (nb : ℕ) {m : Mem}
    {p : Proc} (address i pte : ℕ)
    → select_page policy s.kmem.mem s.proc ≡ ok (address, m, p)
    → find_address address 0 p.pages_ds ≡ some i
    → walk m p.pgdir address ≡ some pte
    → IsPage kernel_end (frame m pte)
    → (pte < frame m pte) ⊎ (frame m pte + pgsize ≤ pte)
    → IsOpen sb nb s.file.ip s.file.fs
    → (get_free_file_offset p).0 ≤ s.file.ip.size
    → (get_free_file_offset p).0 + pgsize ≤ bsize * nb
    → (s' : Swapping) × (swap_to_file sb policy kernel_end p.pgdir s ≡ ok (frame m pte, s'))
      × SwappedOut sb nb m pte i (get_free_file_offset p).0 s s'
unfolding swap_to_file
swap_to_file_lem sb policy kernel_end s nb {m} {p} address i pte chosen found entry page apart
      opened in_file inside =
    let (keeps_pages, keeps_dir) = get_free_file_offset-keeps p in
    let (j, at, lt, pg, got, addr) = find_address-some address 0 p.pages_ds found in
    let same : i ≡ j = omega (arith, at) in
    let (d', writes, stored) =
      write_page-PageStored sb (frame m pte) offset m s.file nb opened in_file inside in
    let get_i : get_elem? p'.pages_ds i ≡ some pg = ap₂ get_elem? keeps_pages same ∙ got in
    let find_i : find_address address 0 p'.pages_ds ≡ some i =
      ap (find_address address 0) keeps_pages ∙ found in
    let walk_i : walk m p'.pgdir address ≡ some pte =
      ap (λ d. walk m d address) keeps_dir ∙ entry in
    (
      after pg d',
      rw (chosen, walk_i, writes, find_i, get_i, entry, frame_same)
          (rw (kfree-IsPage (frame m pte) (record s.kmem { mem = m' }) page) refl),
      record {
        stored = stored;
        entry = marked;
        not_present =
            ap (has_bit 0) marked
            ∙ (has_bit-bit_on_ne 9 0 (bit_off 0 (m pte)) (λ e. omega (arith, e))
                ∙ has_bit-bit_off_self 0 (m pte));
        in_file = ap (has_bit 9) marked ∙ has_bit-bit_on_self 9 (bit_off 0 (m pte));
        freed = refl;
        page = record pg { file_offset = some offset; in_ram = 0 };
        recorded =
            get_elem?-set_self p'.pages_ds i (record pg { file_offset = some offset; in_ram = 0 })
              (subst (λ n. n < length p'.pages_ds) (sym same)
                (subst (λ l. j < length l) (sym keeps_pages) lt));
        page_offset = refl;
        page_in_ram = refl;
      },
    )
  where
    p' : Proc
    p' = (get_free_file_offset p).1

    offset : ℕ
    offset = (get_free_file_offset p).0

    m' : Mem
    m' = write m pte (swapped (m pte))

    frame_same : frame m' pte ≡ frame m pte
    frame_same =
        ap (λ w. p2v (pte_addr w)) (write_self m pte (swapped (m pte)))
        ∙ ap p2v (pte_addr-swapped (m pte))

    freed_kmem : Kmem
    freed_kmem = record s.kmem {
      mem = write (fill_page m' (frame m pte) junk) (frame m pte) s.kmem.freelist;
      freelist = frame m pte;
    }

    marked : freed_kmem.mem pte ≡ swapped (m pte)
    marked =
        write_ne (fill_page m' (frame m pte) junk) (frame m pte) s.kmem.freelist pte
          (λ e. ground (arith, apart, e))
        ∙ fill_page-outside m' (frame m pte) junk pte apart
        ∙ write_self m pte (swapped (m pte))

    after : Page → SwapDisk → Swapping
    after pg d' = record { kmem = freed_kmem; proc = paged_out i offset pg p'; file = d' }
