-- ===== src/Space/Frames.antt =====
-- A page table whose pages for the user are apart from the tables, and what one round of the loop of
-- `deallocuvm` of vm.c writes to its entries.
use os182_ass.Prelude.{
  ℕ, ◌+◌, ◌*◌, ◌/◌, ◌%◌, ◌≤◌, ◌<◌, ◌≡◌, sym, ap, ◌∙◌, subst, ◌≢◌, ◌⊎◌, inl, inr, true, false, some,
  arith, dec_lt, ℕ_discrete,
}
use os182_ass.Prelude.Bits.{has_bit}
use os182_ass.Memory.{Mem, p2v, pgsize, kernbase, write, write_self, write_ne, fill_page}
use os182_ass.Vm.Walk.{pdx, pte_addr, walk, IsTree, walk-ne-pde}
use os182_ass.Kalloc.{junk}
use os182_ass.Kalloc.Chain.{IsPage, freed_ne}
use os182_ass.Swap.{frame}

-- What the entry at `pte` of a page of the user has to be: its frame is a page that `kfree` takes,
-- and neither the page directory nor a page of tables.
pub record IsUser (kernel_end : ℕ) (m : Mem) (pgdir pte : ℕ) : Type 0 where
  pub page : IsPage kernel_end (frame m pte)
  pub mapped : pte_addr (m pte) ≢ 0
  pub no_directory : frame m pte ≢ pgdir
  pub no_table : (vb q : ℕ) → walk m pgdir vb ≡ some q → q / pgsize ≢ frame m pte / pgsize

pub record IsSpace (kernel_end : ℕ) (m : Mem) (pgdir : ℕ) : Type 0 where
  pub tree : IsTree m pgdir
  pub frames :
      (va pte : ℕ)
      → va < kernbase
      → walk m pgdir va ≡ some pte
      → has_bit 0 (m pte) ≡ true
      → IsUser kernel_end m pgdir pte
  pub swapped_out :
      (va pte : ℕ)
      → va < kernbase
      → walk m pgdir va ≡ some pte
      → has_bit 9 (m pte) ≡ true
      → pte_addr (m pte) ≢ 0

-- Of the page directory and the tables, at most the entry at `pte` changes, and no page is at it.
pub record Round (m m' : Mem) (pgdir pte : ℕ) : Type 0 where
  pub pdes : (d : ℕ) → d < 1024 → m' (pgdir + 4 * d) ≡ m (pgdir + 4 * d)
  pub ptes : (vb q : ℕ) → walk m pgdir vb ≡ some q → q ≢ pte → m' q ≡ m q
  pub gone : has_bit 0 (m' pte) ≡ false
  pub left : (m' pte ≡ 0) ⊎ (m' pte ≡ m pte)

module _ (m m' : Mem) (pgdir : ℕ)
    (pdes : (d : ℕ) → d < 1024 → m' (pgdir + 4 * d) ≡ m (pgdir + 4 * d)) where
  pub walk-agree : (vb : ℕ) → walk m' pgdir vb ≡ walk m pgdir vb
  unfolding walk
  walk-agree vb = ground (arith, pdes (pdx vb))

  IsTree-agree : IsTree m pgdir → IsTree m' pgdir
  IsTree-agree t = record {
    aligned = t.aligned;
    apart = λ d e ld le. ground (arith, pdes d ld, pdes e le, t.apart d e);
    outside = λ d ld. ground (arith, pdes d ld, t.outside d);
  }

bit_of_zero : has_bit 9 0 ≢ true
bit_of_zero e = absurd cc

module _ {m m' : Mem} {pgdir pte : ℕ} (r : Round m m' pgdir pte) where
  present-other : (q : ℕ) → has_bit 0 (m' q) ≡ true → q ≢ pte
  present-other q on e = absurd cc

  entry-Round : (vb q : ℕ) → walk m pgdir vb ≡ some q → (m' q ≡ 0) ⊎ (m' q ≡ m q)
  entry-Round vb q w = elim (ℕ_discrete q pte) [
    | yes here ↦ subst (λ x. (m' x ≡ 0) ⊎ (m' x ≡ m x)) (sym here) r.left
    | no other ↦ inr (r.ptes vb q w other)
  ]

  IsUser-Round :
      (kernel_end q : ℕ) → m' q ≡ m q → IsUser kernel_end m pgdir q → IsUser kernel_end m' pgdir q
  IsUser-Round kernel_end q same u = record {
    page = subst (λ w. IsPage kernel_end (p2v (pte_addr w))) (sym same) u.page;
    mapped = λ e. u.mapped (ap pte_addr (sym same) ∙ e);
    no_directory = λ e. u.no_directory (ap (λ w. p2v (pte_addr w)) (sym same) ∙ e);
    no_table = λ vb x w e.
        u.no_table vb x (sym (walk-agree m m' pgdir r.pdes vb) ∙ w)
          (e ∙ ap (λ w. p2v (pte_addr w) / pgsize) same);
  }

  pub IsSpace-Round : (kernel_end : ℕ) → IsSpace kernel_end m pgdir → IsSpace kernel_end m' pgdir
  IsSpace-Round kernel_end s = record {
    tree = IsTree-agree m m' pgdir r.pdes s.tree;
    frames = λ va q low w on.
        let w' = sym (walk-agree m m' pgdir r.pdes va) ∙ w in
        let same = r.ptes va q w' (present-other q on) in
        IsUser-Round kernel_end q same (s.frames va q low w' (ap (has_bit 0) (sym same) ∙ on));
    swapped_out = λ va q low w on.
        let w' = sym (walk-agree m m' pgdir r.pdes va) ∙ w in
        elim (entry-Round va q w') [
          | inl cleared ↦ absurd (bit_of_zero (ap (has_bit 9) (sym cleared) ∙ on))
          | inr same ↦ λ e.
              s.swapped_out va q low w' (ap (has_bit 9) (sym same) ∙ on)
                (ap pte_addr (sym same) ∙ e)
        ];
  }

out_of_page : (f x : ℕ) → f % pgsize ≡ 0 → x / pgsize ≢ f / pgsize → (x < f) ⊎ (f + pgsize ≤ x)
out_of_page f x al ne = elim (dec_lt x f) [ yes h ↦ inl h | no h ↦ inr (omega (arith, h, al, ne)) ]

-- A write of 0 to the entry.
pub write-Round :
    (m : Mem) (pgdir va : ℕ) {pte : ℕ}
    → IsTree m pgdir
    → walk m pgdir va ≡ some pte
    → Round m (write m pte 0) pgdir pte
write-Round m pgdir va {pte} t w = record {
  pdes = λ d ld. write_ne m pte 0 (pgdir + 4 * d) (walk-ne-pde t va d ld w);
  ptes = λ vb q _ ne. write_ne m pte 0 q ne;
  gone = ap (has_bit 0) (write_self m pte 0);
  left = inl (write_self m pte 0);
}

-- The same behind a `kfree` of its frame.
pub freed-Round :
    (kernel_end : ℕ) (m : Mem) (pgdir va link : ℕ) {pte : ℕ}
    → IsTree m pgdir
    → walk m pgdir va ≡ some pte
    → IsUser kernel_end m pgdir pte
    → Round m (write (write (fill_page m (frame m pte) junk) (frame m pte) link) pte 0) pgdir pte
freed-Round kernel_end m pgdir va link {pte} t w u =
    let f = frame m pte in
    let m1 = write (fill_page m f junk) f link in
    let al : f % pgsize ≡ 0 = u.page.aligned in
    record {
      pdes = λ d ld.
          write_ne m1 pte 0 (pgdir + 4 * d) (walk-ne-pde t va d ld w)
          ∙ freed_ne m f link (pgdir + 4 * d)
              (out_of_page f (pgdir + 4 * d) al (omega (arith, t.aligned, al, u.no_directory, ld)));
      ptes = λ vb q wq ne.
          write_ne m1 pte 0 q ne ∙ freed_ne m f link q (out_of_page f q al (u.no_table vb q wq));
      gone = ap (has_bit 0) (write_self m1 pte 0);
      left = inl (write_self m1 pte 0);
    }
