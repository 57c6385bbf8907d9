-- ===== src/Kalloc/Operations.antt =====
-- `kfree`, `kalloc` and `getCurrentCapacity` against the stack of free pages.
use os182_ass.Prelude.{
  ltb, leb, ◌==◌, Bool-cases, length, ℕ, zero, suc, ◌+◌, ◌%◌, ◌≤◌, ◌<◌, ◌≡◌, refl, ap, ◌∙◌, ◌⊎◌,
  inl, inr, not, ◌||◌, some, List, [], ◌∷◌, arith,
}
use os182_ass.Prelude.Outcome.{ok, panic}
use os182_ass.Memory.{Mem, pgsize, phystop, v2p, write, fill_page, write_self}
use os182_ass.Kalloc.{Kmem, kfree, kalloc, capacity_loop, get_current_capacity}
use os182_ass.Kalloc.Chain.{IsPage, Chain, NotIn, Free, freed_ne, Chain-freed}

module _ (kernel_end : ℕ) {k : Kmem} where
  -- `kfree` of a page that is not free puts it on top of the free pages, and writes only to it.
  pub kfree-Free :
      (v : ℕ) (xs : List ℕ)
      → Free kernel_end k xs
      → IsPage kernel_end v
      → NotIn v xs
      → (k' : Kmem) × (kfree kernel_end v k ≡ ok k')
        × Free kernel_end k' (v ∷ xs)
        × ((a : ℕ) → (a < v) ⊎ (v + pgsize ≤ a) → k'.mem a ≡ k.mem a)
  unfolding kfree
  kfree-Free v xs f page out = (
    record k { mem = write (fill_page k.mem v 0x0101_0101) v k.freelist; freelist = v },
    ground (arith, page.aligned, page.above, page.below),
    record {
      chain = (
        refl,
        page,
        rw (write_self (fill_page k.mem v 0x0101_0101) v k.freelist)
            (Chain-freed kernel_end k.mem v k.freelist k.freelist xs page.aligned out f.chain),
      );
      distinct = (out, f.distinct);
    },
    freed_ne k.mem v k.freelist,
  )

  -- `kalloc` takes the page on top, and writes nothing.
  pub kalloc-Free :
      (x : ℕ) (xs : List ℕ)
      → 0 < kernel_end
      → Free kernel_end k (x ∷ xs)
      → (k' : Kmem) × (kalloc k ≡ (x, k')) × Free kernel_end k' xs × (k'.mem ≡ k.mem)
  unfolding kalloc
  kalloc-Free x xs pos f = (
    record k { freelist = k.mem x },
    ground (arith, f.chain.0, f.chain.1.above),
    record { chain = f.chain.2; distinct = f.distinct.1 },
    refl,
  )

  -- When no page is free, `kalloc` returns the null pointer and changes nothing.
  pub kalloc-empty : Free kernel_end k [] → kalloc k ≡ (0, k)
  unfolding kalloc
  kalloc-empty f = rw f.chain

-- `kfree` panics on what is no page between `end` and `PHYSTOP`.
pub kfree-panic :
    (kernel_end v : ℕ) (k : Kmem) → ¬ IsPage kernel_end v → kfree kernel_end v k ≡ panic
unfolding kfree
kfree-panic kernel_end v k bad =
    elim (Bool-cases (not (v % pgsize == 0) || ltb v kernel_end || leb phystop (v2p v))) [
      | inl h ↦ rw h
      | inr h ↦
          absurd
            (bad (record { aligned = ground arith; above = ground arith; below = ground arith }))
    ]

capacity_loop-length :
    (kernel_end fuel : ℕ) (m : Mem) (p counter : ℕ) (xs : List ℕ)
    → 0 < kernel_end
    → Chain kernel_end m p xs
    → length xs < fuel
    → capacity_loop fuel m p counter ≡ some (counter + length xs)
unfolding capacity_loop
capacity_loop-length kernel_end zero m p counter xs pos c h = absurd (omega arith)
capacity_loop-length kernel_end (suc fuel) m p counter [] pos c h =
    rw (c) (ap (λ n. some n) (omega arith))
capacity_loop-length kernel_end (suc fuel) m p counter (x ∷ xs) pos c h =
    ground
      (arith, c.0, c.1.above, capacity_loop-length kernel_end fuel m (m x) (counter + 1) xs pos c.2)

-- With one round more than there are free pages, `getCurrentCapacity` ends, and counts them.
pub get_current_capacity-length :
    (kernel_end fuel : ℕ) {k : Kmem} (xs : List ℕ)
    → 0 < kernel_end
    → Free kernel_end k xs
    → length xs < fuel
    → get_current_capacity fuel k ≡ some (length xs)
unfolding get_current_capacity
get_current_capacity-length kernel_end fuel {k} xs pos f h =
    capacity_loop-length kernel_end fuel k.mem k.freelist 0 xs pos f.chain h
    ∙ ap (λ n. some n) (omega arith)
