-- ===== src/Space/Grow.antt =====
-- `allocuvm` of vm.c for the process that runs and its own page directory, and `growproc` of proc.c.
use os182_ass.Prelude.{
  ltb, leb, ◌==◌, if◌then◌else◌, get_elem?, set, ℕ, zero, suc, ◌+◌, ◌-◌, ◌*◌, ◌/◌, ◌%◌, ◌^◌, Bool,
  true, false, ◌&&◌, Option, none, some, List, [], ◌∷◌,
}
use os182_ass.Prelude.Outcome.{Outcome, ok, ◌>>=◌, deref}
use os182_ass.Memory.{pgsize, kernbase, pgroundup, v2p, write, fill_page}
use os182_ass.Vm.Walk.{walk}
use os182_ass.Vm.Map.{mappages}
use os182_ass.Kalloc.{kfree, kalloc}
use os182_ass.Paging.{Page, max_psyc_pages, insert}
use os182_ass.Fs.{Superblock}
use os182_ass.Swap.{Policy, Swapping, swap_to_file}
use os182_ass.Swap.Fault.{user_flags, returned}
use os182_ass.Space.{default_processes, deallocuvm}

-- The first page that is not allocated; behind the array the code writes past it.
unfoldable pub free_index : ℕ → List Page → Option ℕ
free_index i [] = none
free_index i (page ∷ pages) =
    let rest = free_index (suc i) pages in if page.is_allocated == 1 then rest else some i

-- The page of the process for a new page at `a`.
abbrev pub new_page : ℕ → Page → Page
new_page a page = record page { is_allocated = 1; v_address = a; in_ram = 1; file_offset = none }

unfoldable pub record_page : ℕ → Swapping → Outcome (Swapping)
record_page a s = do
  i ← deref (free_index 0 s.proc.pages_ds)
  page ← deref (get_elem? s.proc.pages_ds i)
  p ← insert i (record s.proc { pages_ds = set s.proc.pages_ds i (new_page a page) })
  pte ← deref (walk s.kmem.mem p.pgdir a)
  ok (record s {
    kmem = record s.kmem { mem = write s.kmem.mem pte (returned (s.kmem.mem pte)) };
    proc = record p { number_of_allocated_pages = (p.number_of_allocated_pages + 1) % 2 ^ 32 };
  })

-- The error path: the pages go back, and the result is 0.
unfoldable pub give_up : ℕ → ℕ → ℕ → ℕ → Swapping → Outcome (Swapping)
give_up kernel_end age0 oldsz newsz s =
    deallocuvm kernel_end age0 false s.proc.pgdir newsz oldsz s.kmem s.proc >>= λ r.
    ok (record s { kmem = r.1; proc = r.2 })

-- The body of the loop at `a`; `false` is the return of 0.
unfoldable pub alloc_at :
    Superblock → Policy → ℕ → ℕ → ℕ → ℕ → ℕ → Swapping → Outcome (Bool × Swapping)
alloc_at sb policy kernel_end age0 oldsz newsz a s = do
  s1 ←
      if ltb default_processes s.proc.pid && leb (pgsize * max_psyc_pages) a
      then (swap_to_file sb policy kernel_end s.proc.pgdir s >>= λ r. ok r.1)
      else ok s
  let mem = (kalloc s1.kmem).0
  let k = (kalloc s1.kmem).1
  if mem == 0
      then (give_up kernel_end age0 oldsz newsz (record s1 { kmem = k }) >>= λ s2. ok (false, s2))
      else (do
        (mapped, k2) ←
            mappages s1.proc.pgdir a pgsize (v2p mem) user_flags
              (record k { mem = fill_page k.mem mem 0 })
        if mapped
            then (if ltb default_processes s1.proc.pid
                then (record_page a (record s1 { kmem = k2 }) >>= λ s3. ok (true, s3))
                else ok (true, record s1 { kmem = k2 }))
            else (do
              s3 ← give_up kernel_end age0 oldsz newsz (record s1 { kmem = k2 })
              k4 ← kfree kernel_end mem s3.kmem
              ok (false, record s3 { kmem = k4 })))

-- The loop at `a`, for the pages left below the new size.
unfoldable pub alloc_loop :
    ℕ → Superblock → Policy → ℕ → ℕ → ℕ → ℕ → ℕ → Swapping → Outcome (Bool × Swapping)
alloc_loop zero sb policy kernel_end age0 oldsz newsz a s = ok (true, s)
alloc_loop (suc pages) sb policy kernel_end age0 oldsz newsz a s = do
  (more, s') ← alloc_at sb policy kernel_end age0 oldsz newsz a s
  if more
      then alloc_loop pages sb policy kernel_end age0 oldsz newsz (a + pgsize) s'
      else ok (false, s')

-- The result is the new size, or 0.
unfoldable pub allocuvm : Superblock → Policy → ℕ → ℕ → ℕ → ℕ → Swapping → Outcome (ℕ × Swapping)
allocuvm sb policy kernel_end age0 oldsz newsz s =
    if leb kernbase newsz
    then ok (0, s)
    else if ltb newsz oldsz
    then ok (oldsz, s)
    else (alloc_loop ((newsz + (pgsize - 1) - pgroundup oldsz) / pgsize) sb policy kernel_end age0
          oldsz newsz (pgroundup oldsz) s
        >>= λ r. ok (if r.0 then newsz else 0, r.1))

-- `growproc(n)`, where `n` is the word of an `int` and `sz` the field of the process. The result is
-- 0 or -1, which is `false`, and the new `sz`.
unfoldable pub growproc :
    Superblock → Policy → ℕ → ℕ → ℕ → ℕ → Swapping → Outcome (Bool × ℕ × Swapping)
growproc sb policy kernel_end age0 n sz s =
    if n == 0
    then ok (true, sz, s)
    else if ltb n (2 ^ 31)
    then (allocuvm sb policy kernel_end age0 sz ((sz + n) % 2 ^ 32) s >>= λ r.
        if r.0 == 0 then ok (false, sz, r.1) else ok (true, r.0, r.1))
    else (let p = record s.proc {
      number_of_allocated_pages =
          (s.proc.number_of_allocated_pages + 2 ^ 32 - (2 ^ 32 - n) / pgsize) % 2 ^ 32;
    } in
        deallocuvm kernel_end age0 true p.pgdir sz ((sz + n) % 2 ^ 32) s.kmem p >>= λ r.
        if r.0 == 0
        then ok (false, sz, record s { kmem = r.1; proc = r.2 })
        else ok (true, r.0, record s { kmem = r.1; proc = r.2 }))
