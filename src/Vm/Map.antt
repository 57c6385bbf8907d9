-- ===== src/Vm/Map.antt =====
-- `walkpgdir` of vm.c with allocation, and `mappages`.
use os182_ass.Prelude.{
  ◌==◌, if◌then◌else◌, ℕ, zero, suc, ◌+◌, ◌-◌, ◌*◌, ◌/◌, ◌%◌, ◌^◌, ◌<◌, ◌≡◌, refl, ap, ◌∙◌, Bool,
  true, false, Option, none, some, arith,
}
use os182_ass.Prelude.Outcome.{Outcome, ok, ◌>>=◌, ◌>>◌, panic_if}
use os182_ass.Prelude.Bits.{has_bit, bit_on}
use os182_ass.Memory.{write, fill_page, pgsize, v2p, pgrounddown}
use os182_ass.Vm.Walk.{ptx, pde_ptr, walk}
use os182_ass.Kalloc.{Kmem, kalloc}

-- `PTE_P | PTE_W | PTE_U`
abbrev pub table_flags : ℕ
table_flags = 7

-- `walkpgdir(pgdir, va, 1)`: the null pointer when the table is missing and there is no page for it.
unfoldable pub walk_alloc : Kmem → ℕ → ℕ → Option ℕ × Kmem
walk_alloc k pgdir va = elim (walk k.mem pgdir va) [
  | some pte ↦ (some pte, k)
  | none ↦
      let (table, k') = kalloc k in
      if table == 0 then (none, k') else (
        some (table + 4 * ptx va),
        record k' {
          mem = write (fill_page k'.mem table 0) (pde_ptr pgdir va) (v2p table + table_flags);
        },
      )
]

-- `pa | perm | PTE_P`, for an aligned `pa` and flags below the page size.
abbrev pub pte_for : ℕ → ℕ → ℕ
pte_for pa perm = pa + bit_on 0 perm

-- The body of the loop of `mappages` behind the walk; `false` is the result -1.
unfoldable pub map_walked : ℕ → ℕ → Option ℕ × Kmem → Outcome (Bool × Kmem)
map_walked pa perm r = elim r.0 [
  | none ↦ ok (false, r.1)
  | some pte ↦ do
    panic_if (has_bit 0 (r.1.mem pte))
    ok (true, record r.1 { mem = write r.1.mem pte (pte_for pa perm) })
]

unfoldable pub map_entry : ℕ → ℕ → ℕ → ℕ → Kmem → Outcome (Bool × Kmem)
map_entry pgdir a pa perm k = map_walked pa perm (walk_alloc k pgdir a)

-- The loop at page `a`, with `pages` more after it.
unfoldable pub map_loop : ℕ → ℕ → ℕ → ℕ → ℕ → Kmem → Outcome (Bool × Kmem)
map_loop zero pgdir a pa perm k = map_entry pgdir a pa perm k
map_loop (suc pages) pgdir a pa perm k = do
  (mapped, k') ← map_entry pgdir a pa perm k
  if mapped
      then map_loop pages pgdir ((a + pgsize) % 2 ^ 32) ((pa + pgsize) % 2 ^ 32) perm k'
      else ok (false, k')

-- The pages from `PGROUNDDOWN(va)` to the last one, whose addresses wrap with `uint`.
abbrev pub more_pages : ℕ → ℕ → ℕ
more_pages va size =
    (pgrounddown ((va + size + (2 ^ 32 - 1)) % 2 ^ 32) + (2 ^ 32 - pgrounddown va))
    % 2 ^ 32
    / pgsize

unfoldable pub mappages : ℕ → ℕ → ℕ → ℕ → ℕ → Kmem → Outcome (Bool × Kmem)
mappages pgdir va size pa perm k = map_loop (more_pages va size) pgdir (pgrounddown va) pa perm k

more_pages-one : (va : ℕ) → va < 2 ^ 32 → va % pgsize ≡ 0 → more_pages va pgsize ≡ 0
more_pages-one va lt al = omega (arith, lt, al)

walk_alloc-some :
    (k : Kmem) (pgdir va : ℕ) {pte : ℕ}
    → walk k.mem pgdir va ≡ some pte
    → walk_alloc k pgdir va ≡ (some pte, k)
unfolding walk_alloc
walk_alloc-some k pgdir va e = rw (e, walk_alloc) refl

map_entry-free :
    (k : Kmem) (pgdir va pa perm : ℕ) {pte : ℕ}
    → walk k.mem pgdir va ≡ some pte
    → has_bit 0 (k.mem pte) ≡ false
    → map_entry pgdir va pa perm k ≡ ok (true, record k { mem = write k.mem pte (pte_for pa perm) })
unfolding map_entry map_walked
map_entry-free k pgdir va pa perm {pte} e free =
    ap (map_walked pa perm) (walk_alloc-some k pgdir va e) ∙ rw (free, map_walked) refl

-- One page whose table is there and whose entry is free.
pub mappages-one :
    (pgdir va pa perm : ℕ) (k : Kmem) {pte : ℕ}
    → va < 2 ^ 32
    → va % pgsize ≡ 0
    → walk k.mem pgdir va ≡ some pte
    → has_bit 0 (k.mem pte) ≡ false
    → mappages pgdir va pgsize pa perm k
      ≡ ok (true, record k { mem = write k.mem pte (pte_for pa perm) })
unfolding mappages map_loop
mappages-one pgdir va pa perm k {pte} lt al entry free =
    let down : pgrounddown va ≡ va = omega (arith, al) in
    rw (more_pages-one va lt al, down) (map_entry-free k pgdir va pa perm entry free)
