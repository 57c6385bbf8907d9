-- ===== src/Kalloc/Range.antt =====
-- `freerange`, as `kinit1` and `kinit2` call it: it frees each whole page between two addresses of
-- the kernel's memory.
use os182_ass.Prelude.{
  leb, length, All, ℕ, zero, suc, ◌+◌, ◌*◌, ◌%◌, ◌^◌, ◌≤◌, ◌<◌, ◌≡◌, ap, ◌∙◌, true, false, some,
  List, [], ◌∷◌, arith,
}
use os182_ass.Prelude.Outcome.{ok}
use os182_ass.Memory.{pgsize, phystop, kernbase, p2v, pgroundup}
use os182_ass.Kalloc.{Kmem, kfree, all_pages, freerange_loop, freerange}
use os182_ass.Kalloc.Chain.{IsPage, NotIn, Free}
use os182_ass.Kalloc.Operations.{kfree-Free}

-- The `n` pages from `p` on, pushed one by one.
unfoldable pub stacked : ℕ → ℕ → List ℕ → List ℕ
stacked zero p xs = xs
stacked (suc n) p xs = stacked n (p + pgsize) (p ∷ xs)

pub length-stacked : (n p : ℕ) (xs : List ℕ) → length (stacked n p xs) ≡ n + length xs
unfolding stacked
length-stacked zero p xs = omega arith
length-stacked (suc n) p xs = omega (arith, length-stacked n (p + pgsize) (p ∷ xs))

-- All of `xs` lies below `p`.
abbrev pub Below : ℕ → List ℕ → Type 0
Below p xs = All (λ x. x + pgsize ≤ p) xs

Below-NotIn : (p : ℕ) (xs : List ℕ) → Below p xs → NotIn p xs
Below-NotIn p [] b = tt
Below-NotIn p (x ∷ xs) b = (omega (arith, b.0), Below-NotIn p xs b.1)

Below-next : (p : ℕ) (xs : List ℕ) → Below p xs → Below (p + pgsize) xs
Below-next p [] b = tt
Below-next p (x ∷ xs) b = (omega (arith, b.0), Below-next p xs b.1)

module _ (kernel_end vend : ℕ) where
  -- What the loop needs: `n` whole pages are left, all in the kernel's memory.
  pub record Ready (p n : ℕ) : Type 0 where
    pub aligned : p % pgsize ≡ 0
    pub low : kernbase ≤ p
    pub above : kernel_end ≤ p
    pub high : vend ≤ p2v phystop
    pub fits : p + n * pgsize ≤ vend
    pub last : vend < p + (n + 1) * pgsize

  Ready-IsPage : {p n : ℕ} → Ready p (suc n) → IsPage kernel_end p
  Ready-IsPage r = record {
    aligned = r.aligned;
    above = r.above;
    below = omega (arith, r.high, r.fits, r.low);
  }

  Ready-next : {p n : ℕ} → Ready p (suc n) → Ready (p + pgsize) n
  Ready-next r = record {
    aligned = omega (arith, r.aligned);
    low = omega (arith, r.low);
    above = omega (arith, r.above);
    high = r.high;
    fits = omega (arith, r.fits);
    last = omega (arith, r.last);
  }

  freerange_loop-step :
      {p n : ℕ} {k' : Kmem} (k : Kmem) (fuel : ℕ)
      → Ready p (suc n)
      → kfree kernel_end p k ≡ ok k'
      → freerange_loop kernel_end (suc fuel) p vend k
        ≡ freerange_loop kernel_end fuel (p + pgsize) vend k'
  unfolding freerange_loop
  freerange_loop-step {p} {k'} k fuel r runs =
      let next : (p + pgsize) % 2 ^ 32 ≡ p + pgsize = omega (arith, r.high, r.fits) in
      let more : leb (p + pgsize) vend ≡ true = ground (arith, r.fits) in
      rw (next, more, runs) (ap (λ q. freerange_loop kernel_end fuel q vend k') next)

  freerange_loop-Free :
      (n fuel p : ℕ) {k : Kmem} (xs : List ℕ)
      → n < fuel
      → Ready p n
      → Below p xs
      → Free kernel_end k xs
      → (k' : Kmem) × (freerange_loop kernel_end fuel p vend k ≡ some (ok k'))
        × Free kernel_end k' (stacked n p xs)
  unfolding freerange_loop stacked
  freerange_loop-Free n zero p xs lt r b f = absurd (omega arith)
  freerange_loop-Free zero (suc fuel) p {k} xs lt r b f = (k, rw stop, f)
    where
      stop : leb ((p + pgsize) % 2 ^ 32) vend ≡ false
      stop = ground (arith, r.high, r.last, r.fits)
  freerange_loop-Free (suc n) (suc fuel) p {k} xs lt r b f =
      let (k', runs, f', same) =
        kfree-Free kernel_end p xs f (Ready-IsPage r) (Below-NotIn p xs b) in
      let (k'', rest, f'') =
        freerange_loop-Free n fuel (p + pgsize) (p ∷ xs) (omega arith) (Ready-next r)
          (omega arith, Below-next p xs b) f' in
      (k'', freerange_loop-step k fuel r runs ∙ rest, f'')

  -- Where the whole pages between its arguments lie between `end` and `PHYSTOP`, and the pages that
  -- were free lie below them, `freerange(vstart, vend)` ends with all of these pages free.
  pub freerange-Free :
      (vstart n : ℕ) {k : Kmem} (xs : List ℕ)
      → Ready (pgroundup vstart) n
      → Below (pgroundup vstart) xs
      → Free kernel_end k xs
      → (k' : Kmem) × (freerange kernel_end vstart vend k ≡ some (ok k'))
        × Free kernel_end k' (stacked n (pgroundup vstart) xs)
  unfolding freerange
  freerange-Free vstart n xs r b f =
      freerange_loop-Free n (suc all_pages) (pgroundup vstart) xs (omega (arith, r.high, r.fits)) r
        b f
