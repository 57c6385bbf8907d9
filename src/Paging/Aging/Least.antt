-- ===== src/Paging/Aging/Least.antt =====
-- The first index at which a key is least, and the keys of the pages of a queue.
use os182_ass.Prelude.{
  ltb, if◌then◌else◌, Bool-cases, length, get_elem?, get_or, All, get_elem?-some, ℕ, zero, suc, ◌-◌,
  ◌≤◌, ◌<◌, ◌≡◌, subst, inl, inr, none, some, List, [], ◌∷◌, arith, ℕ_discrete,
}
use os182_ass.Prelude.Outcome.{ok}
use os182_ass.Paging.{Slot, Page, max_psyc_pages}
use os182_ass.Paging.Queue.{slots, Holds}
use os182_ass.Paging.Aging.{age_at}

-- `i` is the first of the indices below `n` at which `key` is least.
pub record IsFirstLeast (key : ℕ → ℕ) (n i : ℕ) : Type 0 where
  pub below : i < n
  pub least : (j : ℕ) → j < n → key i ≤ key j
  pub first : (j : ℕ) → j < i → key i < key j

pub IsFirstLeast-one : (key : ℕ → ℕ) → IsFirstLeast key 1 0
IsFirstLeast-one key = record {
  below = omega arith;
  least = λ j h. let e : j ≡ 0 = omega arith in rw e (omega arith);
  first = λ j h. absurd (omega arith);
}

-- One more index: it takes the place of the old one if its key is less.
pub IsFirstLeast-step :
    {key : ℕ → ℕ} {n i : ℕ}
    → IsFirstLeast key n i
    → IsFirstLeast key (suc n) (if ltb (key n) (key i) then n else i)
IsFirstLeast-step {key} {n} {i} l = elim (Bool-cases (ltb (key n) (key i))) [
  | inl h ↦ rw h (record {
    below = omega arith;
    least = λ j lt. elim (ℕ_discrete j n) [
      | yes e ↦ rw e (omega arith)
      | no ne ↦ ground (arith, l.least j)
    ];
    first = λ j lt. ground (arith, l.least j);
  })
  | inr h ↦ rw h (record {
    below = omega (arith, l.below);
    least = λ j lt. elim (ℕ_discrete j n) [
      | yes e ↦ rw e (ground arith)
      | no ne ↦ ground (arith, l.least j)
    ];
    first = l.first;
  })
]

-- The age of the page that the `i`th item of the queue names.
abbrev pub age_of : List Page → List ℕ → ℕ → ℕ
age_of pages live i = elim (get_elem? live i) [
  | none ↦ 0
  | some idx ↦ elim (get_elem? pages idx) [ none ↦ 0 | some page ↦ page.age ]
]

-- Every item of the queue is an index of a page.
abbrev pub AllPages : List Page → List ℕ → Type 0
AllPages pages = All (λ idx. idx < length pages)

pub get_or-slots :
    (live : List ℕ) (free i : ℕ) {x : ℕ}
    → get_elem? live i ≡ some x
    → get_or (slots live free) i none ≡ some x
get_or-slots [] free i e = cc
get_or-slots (y ∷ live) free zero e = e
get_or-slots (y ∷ live) free (suc i) e = get_or-slots live free i e

All-get : (P : ℕ → Type 0) (xs : List ℕ) (i : ℕ) {x : ℕ} → All P xs → get_elem? xs i ≡ some x → P x
All-get P [] i h e = cc
All-get P (y ∷ xs) zero {x} h e = let e' : y ≡ x = cc in subst P e' h.0
All-get P (y ∷ xs) (suc i) h e = All-get P xs i h.1 e

pub age_at-ok :
    (pages : List Page) (live : List ℕ) (free i : ℕ)
    → AllPages pages live
    → i < length live
    → age_at pages (slots live free) i ≡ ok (age_of pages live i)
unfolding age_at
age_at-ok pages live free i all lt =
    let (x, e) = get_elem?-some live i lt in
    let (page, e') = get_elem?-some pages x (All-get (λ idx. idx < length pages) live i all e) in
    ground (arith, e, e', get_or-slots live free i e)

pub get_or-Holds :
    {q : List Slot} {live : List ℕ} (i : ℕ) {x : ℕ}
    → Holds q live
    → get_elem? live i ≡ some x
    → get_or q i none ≡ some x
get_or-Holds {live} i h e = rw h.layout (get_or-slots live (max_psyc_pages - length live) i e)
