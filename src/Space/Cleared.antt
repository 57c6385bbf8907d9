-- ===== src/Space/Cleared.antt =====
-- One round of the loop of `deallocuvm` of vm.c, without `deallocatePage`, on an address space.
use os182_ass.Prelude.{
  ltb, ◌==◌, Bool-cases, Option-cases, ℕ, ◌+◌, ◌*◌, ◌/◌, ◌%◌, ◌≤◌, ◌<◌, ◌≡◌, refl, sym, ap, ◌∙◌,
  ◌≢◌, inl, inr, Bool, true, false, ◌&&◌, none, some, arith,
}
use os182_ass.Prelude.Outcome.{ok}
use os182_ass.Prelude.Bits.{has_bit}
use os182_ass.Memory.{Mem, pgsize, kernbase, pgrounddown, write, fill_page}
use os182_ass.Vm.Walk.{pdx, pde_ptr, pte_addr, walk, walk-same_page}
use os182_ass.Kalloc.{Kmem, junk}
use os182_ass.Paging.{Proc}
use os182_ass.Swap.{frame}
use os182_ass.Swap.Out.{kfree-IsPage}
use os182_ass.Space.{default_processes, next_table, forget_page, dealloc_entry, dealloc_at}
use os182_ass.Space.Access.{walk-page}
use os182_ass.Space.Frames.{IsSpace, Round, walk-agree, IsSpace-Round, write-Round, freed-Round}

-- The page table entry for `va`, and 0 where there is no table.
unfoldable pub entry : Mem → ℕ → ℕ → ℕ
entry m pgdir va = elim (walk m pgdir va) [ none ↦ 0 | some pte ↦ m pte ]

-- From the page at `a` to `next` no page is mapped in `m'`; the entries but that of `a` are those of
-- `m`.
abbrev pub Frees : ℕ → ℕ → ℕ → Mem → Mem → Type 0
Frees pgdir a next m m' =
    (va : ℕ)
    → va < kernbase
    → (a ≤ pgrounddown va → pgrounddown va < next → has_bit 0 (entry m' pgdir va) ≡ false)
      × (pgrounddown va ≢ a → entry m' pgdir va ≡ entry m pgdir va)

entry-some :
    (m : Mem) (pgdir va : ℕ) {pte : ℕ} → walk m pgdir va ≡ some pte → entry m pgdir va ≡ m pte
unfolding entry
entry-some m pgdir va e = rw (e, entry) refl

entry-none : (m : Mem) (pgdir va : ℕ) → walk m pgdir va ≡ none → entry m pgdir va ≡ 0
unfolding entry
entry-none m pgdir va e = rw (e, entry) refl

-- The addresses up to the next table have the same, missing, table.
walk-missing :
    (m : Mem) (pgdir a va : ℕ)
    → a < kernbase
    → va < kernbase
    → a % pgsize ≡ 0
    → walk m pgdir a ≡ none
    → a ≤ pgrounddown va
    → pgrounddown va < next_table a
    → walk m pgdir va ≡ none
unfolding walk
walk-missing m pgdir a va la lv al gone from to =
    let same : pdx va ≡ pdx a = omega (arith, la, lv, al, from, to) in
    let at : m (pde_ptr pgdir va) ≡ m (pde_ptr pgdir a) = ap (λ d. m (pgdir + 4 * d)) same in
    ground (arith, at, gone)

Frees-missing :
    (m : Mem) (pgdir a : ℕ)
    → a < kernbase
    → a % pgsize ≡ 0
    → walk m pgdir a ≡ none
    → Frees pgdir a (next_table a) m m
Frees-missing m pgdir a la al gone va lv = (
  λ from to.
      ap (has_bit 0) (entry-none m pgdir va (walk-missing m pgdir a va la lv al gone from to)),
  λ _. refl,
)

Frees-Round :
    (kernel_end : ℕ) (m m' : Mem) (pgdir a : ℕ) {pte : ℕ}
    → IsSpace kernel_end m pgdir
    → a < kernbase
    → a % pgsize ≡ 0
    → walk m pgdir a ≡ some pte
    → Round m m' pgdir pte
    → Frees pgdir a (a + pgsize) m m'
Frees-Round kernel_end m m' pgdir a {pte} s la al there r va lv = (
  λ from to.
      let same : va / pgsize ≡ a / pgsize = omega (arith, al, from, to) in
      let at = walk-agree m m' pgdir r.pdes va ∙ walk-page m pgdir va a same ∙ there in
      ap (has_bit 0) (entry-some m' pgdir va at) ∙ r.gone,
  λ out.
      let moved = walk-agree m m' pgdir r.pdes va in
      elim (Option-cases (walk m pgdir va)) [
        | inl gone ↦ entry-none m' pgdir va (moved ∙ gone) ∙ sym (entry-none m pgdir va gone)
        | inr (q, at) ↦
            let apart : va / pgsize ≢ a / pgsize = omega (arith, al, out) in
            let other : q ≢ pte = λ e. apart (
              walk-same_page s.tree va a (omega (arith, lv)) (omega (arith, la)) (at ∙ ap some e)
                there) in
            entry-some m' pgdir va (moved ∙ at)
            ∙ r.ptes va q at other
            ∙ sym (entry-some m pgdir va at)
      ],
)

zero_no : (x : ℕ) → x ≢ 0 → (x == 0) ≡ false
zero_no x ne = ground (arith, ne)

both : (b c : Bool) → (b && c) ≡ true → c ≡ true
both true c e = e
both false c e = absurd cc

forgets : (age0 a : ℕ) (p : Proc) → forget_page age0 false a p ≡ ok p
unfolding forget_page
forgets age0 a p = elim (Bool-cases (ltb default_processes p.pid)) [
  | inl h ↦ rw (h, forget_page) refl
  | inr h ↦ rw (h, forget_page) refl
]

-- What `dealloc_entry` does to an entry, by its bits.
dealloc_entry-Round :
    (kernel_end age0 pgdir a : ℕ) (k : Kmem) (p : Proc) {pte : ℕ}
    → IsSpace kernel_end k.mem pgdir
    → a < kernbase
    → walk k.mem pgdir a ≡ some pte
    → (k' : Kmem) × (dealloc_entry kernel_end age0 false a pte k p ≡ ok (k', p))
      × Round k.mem k'.mem pgdir pte
unfolding dealloc_entry
dealloc_entry-Round kernel_end age0 pgdir a k p {pte} s la there =
    elim (Bool-cases (has_bit 0 (k.mem pte))) [
      | inl on ↦
          let u = s.frames a pte la there on in
          (
            record k {
              mem =
                  write
                    (write (fill_page k.mem (frame k.mem pte) junk) (frame k.mem pte) k.freelist)
                    pte 0;
              freelist = frame k.mem pte;
            },
            rw
                (
                  on,
                  zero_no (pte_addr (k.mem pte)) u.mapped,
                  forgets age0 a p,
                  kfree-IsPage (frame k.mem pte) k u.page,
                  dealloc_entry,
                )
                refl,
            freed-Round kernel_end k.mem pgdir a k.freelist s.tree there u,
          )
      | inr off ↦ elim (Bool-cases (ltb default_processes p.pid && has_bit 9 (k.mem pte))) [
        | inl out ↦ (
          record k { mem = write k.mem pte 0 },
          rw
              (
                off,
                out,
                zero_no (pte_addr (k.mem pte)) (
                    s.swapped_out a pte la there
                      (both (ltb default_processes p.pid) (has_bit 9 (k.mem pte)) out)),
                forgets age0 a p,
                dealloc_entry,
              )
              refl,
          write-Round k.mem pgdir a s.tree there,
        )
        | inr none_there ↦ (
          k,
          rw (off, none_there, dealloc_entry) refl,
          record { pdes = λ _ _. refl; ptes = λ _ _ _ _. refl; gone = off; left = inr refl },
        )
      ]
    ]

-- One round, with the address that it goes on at.
pub dealloc_at-Frees :
    (kernel_end age0 pgdir a : ℕ) (k : Kmem) (p : Proc)
    → IsSpace kernel_end k.mem pgdir
    → a < kernbase
    → a % pgsize ≡ 0
    → (next : ℕ) × (k' : Kmem) × (dealloc_at kernel_end age0 false pgdir a k p ≡ ok (next, k', p))
      × IsSpace kernel_end k'.mem pgdir
      × Frees pgdir a next k.mem k'.mem
unfolding dealloc_at
dealloc_at-Frees kernel_end age0 pgdir a k p s la al = elim (Option-cases (walk k.mem pgdir a)) [
  | inl gone ↦
      (next_table a, k, rw (gone, dealloc_at) refl, s, Frees-missing k.mem pgdir a la al gone)
  | inr (pte, there) ↦
      let (k', runs, r) = dealloc_entry-Round kernel_end age0 pgdir a k p s la there in
      (
        a + pgsize,
        k',
        rw (there, runs, dealloc_at) (ap (λ x. ok (x, k', p)) (omega (arith, la))),
        IsSpace-Round r kernel_end s,
        Frees-Round kernel_end k.mem k'.mem pgdir a s la al there r,
      )
]
