-- ===== src/Kalloc/Chain.antt =====
-- The list of free pages in memory, and the writes that leave it alone.
use os182_ass.Prelude.{
  All, ℕ, ◌+◌, ◌%◌, ◌≤◌, ◌<◌, ◌≡◌, ◌≢◌, ◌⊎◌, inl, inr, List, [], ◌∷◌, arith, dec_lt,
}
use os182_ass.Memory.{Mem, pgsize, phystop, v2p, write, fill_page}
use os182_ass.Kalloc.{Kmem}

-- A page that `kfree` takes.
pub record IsPage (kernel_end v : ℕ) : Type 0 where
  pub aligned : v % pgsize ≡ 0
  pub above : kernel_end ≤ v
  pub below : v2p v < phystop

-- From `p` the links lead through the pages `xs`, to the null pointer.
abbrev pub Chain : ℕ → Mem → ℕ → List ℕ → Type 0
Chain kernel_end m p [] = p ≡ 0
Chain kernel_end m p (x ∷ xs) = (p ≡ x) × IsPage kernel_end x × Chain kernel_end m (m x) xs

abbrev pub NotIn : ℕ → List ℕ → Type 0
NotIn v xs = All (λ x. v ≢ x) xs

abbrev pub Distinct : List ℕ → Type 0
Distinct [] = Unit
Distinct (x ∷ xs) = NotIn x xs × Distinct xs

-- The free pages of `k` are `xs`, from the head of the list on.
pub record Free (kernel_end : ℕ) (k : Kmem) (xs : List ℕ) : Type 0 where
  pub chain : Chain kernel_end k.mem k.freelist xs
  pub distinct : Distinct xs

-- What `kfree` writes lies in the page that it frees.
pub freed_ne :
    (m : Mem) (v w a : ℕ)
    → (a < v) ⊎ (v + pgsize ≤ a)
    → write (fill_page m v 0x0101_0101) v w a ≡ m a
unfolding write fill_page
freed_ne m v w a h = ground arith

pub Chain-freed :
    (kernel_end : ℕ) (m : Mem) (v w p : ℕ) (xs : List ℕ)
    → v % pgsize ≡ 0
    → NotIn v xs
    → Chain kernel_end m p xs
    → Chain kernel_end (write (fill_page m v 0x0101_0101) v w) p xs
Chain-freed kernel_end m v w p [] al out c = c
Chain-freed kernel_end m v w p (x ∷ xs) al out c =
    (c.0, c.1, rw (freed_ne m v w x apart) (Chain-freed kernel_end m v w (m x) xs al out.1 c.2))
  where
    apart : (x < v) ⊎ (v + pgsize ≤ x)
    apart = elim (dec_lt x v) [ yes h ↦ inl h | no h ↦ inr (omega (arith, c.1.aligned, out.0)) ]
