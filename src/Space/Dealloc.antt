-- ===== src/Space/Dealloc.antt =====
-- `deallocuvm` of vm.c, without `deallocatePage`, on an address space.
use os182_ass.Prelude.{
  ltb, leb, ℕ, zero, suc, ◌+◌, ◌*◌, ◌/◌, ◌%◌, ◌≤◌, ◌<◌, ◌≡◌, refl, ap, ◌∙◌, ◌⊎◌, inl, inr, Bool,
  true, false, some, arith, dec_lt,
}
use os182_ass.Prelude.Outcome.{ok}
use os182_ass.Prelude.Bits.{has_bit}
use os182_ass.Memory.{Mem, pgsize, kernbase, pgroundup, pgrounddown}
use os182_ass.Kalloc.{Kmem}
use os182_ass.Paging.{Proc}
use os182_ass.Space.{dealloc_loop, dealloc_rounds, deallocuvm}
use os182_ass.Space.Ends.{Advances, dealloc_at-Advances}
use os182_ass.Space.Frames.{IsSpace}
use os182_ass.Space.Cleared.{entry, Frees, dealloc_at-Frees}

-- Of the pages from `a` to `oldsz`, which need not be the start of a page, none is mapped in `m'`; the
-- entries of all others are those of `m`.
abbrev pub Clears : ℕ → ℕ → ℕ → Mem → Mem → Type 0
Clears pgdir a oldsz m m' =
    (va : ℕ)
    → va < kernbase
    → (a ≤ pgrounddown va → pgrounddown va < oldsz → has_bit 0 (entry m' pgdir va) ≡ false)
      × ((pgrounddown va < a) ⊎ (oldsz ≤ pgrounddown va) → entry m' pgdir va ≡ entry m pgdir va)

Clears-join :
    (pgdir a next oldsz : ℕ) (m m1 m2 : Mem)
    → a < oldsz
    → Advances a next
    → Frees pgdir a next m m1
    → Clears pgdir next oldsz m1 m2
    → Clears pgdir a oldsz m m2
Clears-join pgdir a next oldsz m m1 m2 lt adv first rest va lv = (
  λ from to. elim (dec_lt (pgrounddown va) next) [
    | yes early ↦ ap (has_bit 0) ((rest va lv).1 (inl early)) ∙ (first va lv).0 from early
    | no late ↦ (rest va lv).0 (omega (arith, late)) to
  ],
  λ out.
      (rest va lv).1
        (elim out [ inl before ↦ inl (omega (arith, before, adv.0)) | inr behind ↦ inr behind ])
      ∙ (first va lv).1 (omega (arith, out, lt)),
)

dealloc_loop-Clears :
    (fuel kernel_end age0 pgdir oldsz a : ℕ) (k : Kmem) (p : Proc)
    → IsSpace kernel_end k.mem pgdir
    → oldsz ≤ kernbase
    → a % pgsize ≡ 0
    → oldsz ≤ a + pgsize * fuel
    → (k' : Kmem) × (dealloc_loop (suc fuel) kernel_end age0 false pgdir oldsz a k p
        ≡ some (ok (k', p)))
      × IsSpace kernel_end k'.mem pgdir
      × Clears pgdir a oldsz k.mem k'.mem
unfolding dealloc_loop
dealloc_loop-Clears zero kernel_end age0 pgdir oldsz a k p s low al enough = (
  k,
  ground (arith, enough),
  s,
  λ va lv. (λ from to. absurd (omega (arith, from, to, enough)), λ _. refl),
)
dealloc_loop-Clears (suc fuel) kernel_end age0 pgdir oldsz a k p s low al enough =
    elim (dec_lt a oldsz) [
      | no done ↦ (
        k,
        ground (arith, done),
        s,
        λ va lv. (λ from to. absurd (omega (arith, done, from, to)), λ _. refl),
      )
      | yes more ↦
          let go : ltb a oldsz ≡ true = ground (arith, more) in
          let la : a < kernbase = omega (arith, more, low) in
          let (next, k1, runs, s1, first) = dealloc_at-Frees kernel_end age0 pgdir a k p s la al in
          let adv = dealloc_at-Advances kernel_end age0 false pgdir a k p la al runs in
          let (k2, loops, s2, rest) =
            dealloc_loop-Clears fuel kernel_end age0 pgdir oldsz next k1 p s1 low adv.1
              (omega (arith, adv.0, enough)) in
          (
            k2,
            rw (go, runs, dealloc_loop) loops,
            s2,
            Clears-join pgdir a next oldsz k.mem k1.mem k2.mem more adv first rest,
          )
    ]

deallocuvm-runs :
    (kernel_end age0 : ℕ) (flag : Bool) (pgdir oldsz newsz : ℕ) (k k' : Kmem) (p p' : Proc)
    → newsz < oldsz
    → dealloc_loop (dealloc_rounds oldsz) kernel_end age0 flag pgdir oldsz (pgroundup newsz) k p
      ≡ some (ok (k', p'))
    → deallocuvm kernel_end age0 flag pgdir oldsz newsz k p ≡ ok (newsz, k', p')
unfolding deallocuvm
deallocuvm-runs kernel_end age0 flag pgdir oldsz newsz k k' p p' less runs =
    let go : leb oldsz newsz ≡ false = ground (arith, less) in rw (go, runs, deallocuvm) refl

-- Below KERNBASE, in an address space whose tables and pages of the user are apart, `deallocuvm`
-- without the flag returns the new size and leaves the process alone; then no page from
-- `PGROUNDUP(newsz)` to `oldsz` is mapped, every other entry is as before, and the address space is
-- still one.
pub deallocuvm_lem :
    (kernel_end age0 pgdir oldsz newsz : ℕ) (k : Kmem) (p : Proc)
    → IsSpace kernel_end k.mem pgdir
    → newsz < oldsz
    → oldsz ≤ kernbase
    → (k' : Kmem) × (deallocuvm kernel_end age0 false pgdir oldsz newsz k p ≡ ok (newsz, k', p))
      × IsSpace kernel_end k'.mem pgdir
      × Clears pgdir (pgroundup newsz) oldsz k.mem k'.mem
deallocuvm_lem kernel_end age0 pgdir oldsz newsz k p s less low =
    let (k', loops, s', clears) =
      dealloc_loop-Clears (oldsz / pgsize + 1) kernel_end age0 pgdir oldsz (pgroundup newsz) k p s
        low (omega arith) (omega arith) in
    (k', deallocuvm-runs kernel_end age0 false pgdir oldsz newsz k k' p p less loops, s', clears)
