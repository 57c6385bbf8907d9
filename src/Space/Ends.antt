-- ===== src/Space/Ends.antt =====
-- The loop of `deallocuvm` of vm.c ends.
use os182_ass.Prelude.{
  ltb, Bool-cases, Option-cases, ℕ, zero, suc, ◌+◌, ◌*◌, ◌%◌, ◌^◌, ◌≤◌, ◌<◌, ◌≡◌, refl, sym, ap,
  ◌∙◌, ◌⊎◌, inl, inr, Bool, some, arith,
}
use os182_ass.Prelude.Outcome.{Outcome, ok, panic, fault, ◌>>=◌, >>=-ok}
use os182_ass.Memory.{pgsize, kernbase}
use os182_ass.Vm.Walk.{walk}
use os182_ass.Kalloc.{Kmem}
use os182_ass.Paging.{Proc}
use os182_ass.Space.{next_table, dealloc_entry, dealloc_at, dealloc_loop}

-- The next address is of a later page.
abbrev pub Advances : ℕ → ℕ → Type 0
Advances a next = (a + pgsize ≤ next) × (next % pgsize ≡ 0)

ok-next :
    {x y : ℕ} {k k' : Kmem} {p p' : Proc}
    → ◌≡◌ {A = Outcome (ℕ × Kmem × Proc)} (ok (x, k, p)) (ok (y, k', p'))
    → x ≡ y
ok-next {x} e = ap (λ o. elim o [ ok r ↦ r.0 | panic ↦ x | fault ↦ x ]) e

pub dealloc_at-Advances :
    (kernel_end age0 : ℕ) (flag : Bool) (pgdir a : ℕ) (k : Kmem) (p : Proc) {next : ℕ} {k' : Kmem}
    {p' : Proc}
    → a < kernbase
    → a % pgsize ≡ 0
    → dealloc_at kernel_end age0 flag pgdir a k p ≡ ok (next, k', p')
    → Advances a next
unfolding dealloc_at
dealloc_at-Advances kernel_end age0 flag pgdir a k p {next} {k'} {p'} low al runs =
    elim (Option-cases (walk k.mem pgdir a)) [
      | inl gone ↦
          let at : dealloc_at kernel_end age0 flag pgdir a k p ≡ ok (next_table a, k, p) =
            rw (gone, dealloc_at) refl in
          let same : next_table a ≡ next = ok-next (sym at ∙ runs) in
          (omega (arith, same, low, al), omega (arith, same, low, al))
      | inr (pte, there) ↦
          let at : dealloc_at kernel_end age0 flag pgdir a k p ≡ (
              dealloc_entry kernel_end age0 flag a pte k p >>= λ r.
              ok ((a + pgsize) % 2 ^ 32, r.0, r.1)) =
            rw (there, dealloc_at) refl in
          let (r, _, e) =
            >>=-ok (dealloc_entry kernel_end age0 flag a pte k p)
              (λ r. ok ((a + pgsize) % 2 ^ 32, r.0, r.1)) (sym at ∙ runs) in
          let same : (a + pgsize) % 2 ^ 32 ≡ next = ok-next e in
          (omega (arith, same, low, al), omega (arith, same, low, al))
    ]

Outcome-cases : {A : Type 0} (m : Outcome A) → ((a : A) × (m ≡ ok a)) ⊎ ((m ≡ panic) ⊎ (m ≡ fault))
Outcome-cases (ok a) = inl (a, refl)
Outcome-cases panic = inr (inl refl)
Outcome-cases fault = inr (inr refl)

-- Below KERNBASE, from an address that is the start of a page, the loop of `deallocuvm` comes to an
-- end, with a result, a panic or a fault: a round for each page up to `oldsz`, and one more, are
-- enough. (Near the end of the address space the next address would wrap to 0.)
pub dealloc_loop-ends :
    (fuel kernel_end age0 : ℕ) (flag : Bool) (pgdir oldsz a : ℕ) (k : Kmem) (p : Proc)
    → oldsz ≤ kernbase
    → a % pgsize ≡ 0
    → oldsz ≤ a + pgsize * fuel
    → (r : Outcome (Kmem × Proc)) × (dealloc_loop (suc fuel) kernel_end age0 flag pgdir oldsz a k p
        ≡ some r)
unfolding dealloc_loop
dealloc_loop-ends zero kernel_end age0 flag pgdir oldsz a k p low al enough =
    (ok (k, p), ground (arith, enough))
dealloc_loop-ends (suc fuel) kernel_end age0 flag pgdir oldsz a k p low al enough =
    elim (Bool-cases (ltb a oldsz)) [
      | inr done ↦ (ok (k, p), rw (done, dealloc_loop) refl)
      | inl more ↦
          let below : a < oldsz = ground (arith, more) in
          elim (Outcome-cases (dealloc_at kernel_end age0 flag pgdir a k p)) [
            | inr (inl stop) ↦ (panic, rw (more, stop, dealloc_loop) refl)
            | inr (inr stop) ↦ (fault, rw (more, stop, dealloc_loop) refl)
            | inl ((next, k', p'), runs) ↦
                let (later, al') =
                  dealloc_at-Advances kernel_end age0 flag pgdir a k p (omega (arith, below, low))
                    al runs in
                let (r, ends) =
                  dealloc_loop-ends fuel kernel_end age0 flag pgdir oldsz next k' p' low al'
                    (omega (arith, later, enough)) in
                (r, rw (more, runs, dealloc_loop) ends)
          ]
    ]
