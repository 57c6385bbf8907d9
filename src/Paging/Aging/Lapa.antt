-- ===== src/Paging/Aging/Lapa.antt =====
-- `removeLAPA` takes the first page of the queue with the least key, where the key orders ages by
-- their number of ones and then as an `int`.
use os182_ass.Prelude.{
  ltb, if◌then◌else◌, Bool-cases, length, get_elem?, remove_at, get_elem?-some, ℕ, zero, suc, ◌+◌,
  ◌*◌, ◌/◌, ◌%◌, ◌^◌, ◌≤◌, ◌<◌, ◌≡◌, refl, ap, ◌∙◌, subst, inl, inr, none, some, List, arith,
}
use os182_ass.Prelude.Outcome.{ok}
use os182_ass.Prelude.Bits.{has_bit}
use os182_ass.Prelude.BitLaws.{has_bit-suc}
use os182_ass.Paging.{Page, Proc, max_psyc_pages, fix_queue}
use os182_ass.Paging.Queue.{slots, Holds, layout-free, fix_queue-Holds}
use os182_ass.Paging.Aging.{count_loop, count_ones, LapaState, lapa_step, lapa_loop, remove_lapa}
use os182_ass.Paging.Aging.Least.{
  IsFirstLeast, IsFirstLeast-one, IsFirstLeast-step, age_of, AllPages, age_at-ok, get_or-Holds,
}

count_loop-le : (rounds j age count : ℕ) → count_loop rounds j age count ≤ count + rounds
unfolding count_loop
count_loop-le zero j age count = omega arith
count_loop-le (suc rounds) j age count = elim (Bool-cases (has_bit j age)) [
  | inl h ↦ rw h (omega (arith, count_loop-le rounds (suc j) age (count + 1)))
  | inr h ↦ rw h (omega (arith, count_loop-le rounds (suc j) age count))
]

count_ones-le : (age : ℕ) → count_ones age ≤ 32
unfolding count_ones
count_ones-le age = count_loop-le 32 0 age 0

-- The sum of the binary digits of a number, of which there are at most `n`.
unfoldable pub digit_sum : ℕ → ℕ → ℕ
digit_sum zero w = 0
digit_sum (suc n) w = w % 2 + digit_sum n (w / 2)

count_loop-half :
    (rounds j age count : ℕ)
    → count_loop rounds (suc j) age count ≡ count_loop rounds j (age / 2) count
unfolding count_loop
count_loop-half zero j age count = refl
count_loop-half (suc rounds) j age count =
    rw (has_bit-suc j age)
      (count_loop-half rounds (suc j) age (if has_bit j (age / 2) then count + 1 else count))

count_loop-digits :
    (rounds age count : ℕ) → count_loop rounds 0 age count ≡ count + digit_sum rounds age
unfolding count_loop digit_sum
count_loop-digits zero age count = omega arith
count_loop-digits (suc rounds) age count =
    let next = if has_bit 0 age then count + 1 else count in
    let here : next ≡ count + age % 2 = ground arith in
    count_loop-half rounds 0 age next
    ∙ count_loop-digits rounds (age / 2) next
    ∙ omega (arith, here)

count_ones-digits : (age : ℕ) → count_ones age ≡ digit_sum 32 age
unfolding count_ones
count_ones-digits age = count_loop-digits 32 age 0 ∙ omega arith

-- Fewer ones first; among as many, the lesser `int`.
abbrev pub lapa_key : ℕ → ℕ
lapa_key age = digit_sum 32 age * 2 ^ 32 + (age + 2 ^ 31) % 2 ^ 32

-- What the loop knows at index `n`: `min_i` is the first index with the least key.
record Keeps (ages : ℕ → ℕ) (n : ℕ) (s : LapaState) (i : ℕ) : Type 0 where
  index : s.min_i ≡ some i
  age : s.min_age ≡ ages i
  count : s.min_count ≡ count_ones (ages i)
  least : IsFirstLeast (λ j. lapa_key (ages j)) n i

lapa_step-Keeps :
    {ages : ℕ → ℕ} {n : ℕ} {s : LapaState} {i : ℕ}
    → Keeps ages n s i
    → Keeps ages
        (suc n)
        (lapa_step n (ages n) s)
        (if ltb (lapa_key (ages n)) (lapa_key (ages i)) then n else i)
unfolding lapa_step
lapa_step-Keeps {ages} {n} {s} {i} k =
    let here = count_ones-digits (ages n) in
    let there = count_ones-digits (ages i) in
    record {
      index = ground (arith, k.index, k.age, k.count, here, there);
      age = ground (arith, k.index, k.age, k.count, here, there);
      count = ground (arith, k.index, k.age, k.count, here, there);
      least = IsFirstLeast-step k.least;
    }

lapa_loop-Keeps :
    (rounds i least : ℕ) (s : LapaState) (pages : List Page) (live : List ℕ) (free : ℕ)
    → AllPages pages live
    → i + rounds ≡ length live
    → Keeps (age_of pages live) i s least
    → (k : ℕ) × (t : LapaState) × (lapa_loop rounds i s pages (slots live free) ≡ ok t)
      × Keeps (age_of pages live) (length live) t k
unfolding lapa_loop
lapa_loop-Keeps zero i least s pages live free all e l = (
  least,
  s,
  refl,
  let e' : i ≡ length live = omega arith in subst (λ n. Keeps (age_of pages live) n s least) e' l,
)
lapa_loop-Keeps (suc rounds) i least s pages live free all e l =
    rw (age_at-ok pages live free i all (omega arith)) (
      lapa_loop-Keeps rounds (suc i) _ (lapa_step i (age_of pages live i) s) pages live free all
        (omega arith) (lapa_step-Keeps l))

start : LapaState
start = record { min_i = none; min_age = 0xFFFFFFFF; min_count = 33 }

lapa_step-start : (ages : ℕ → ℕ) → Keeps ages 1 (lapa_step 0 (ages 0) start) 0
unfolding lapa_step start
lapa_step-start ages = record {
  index = ground (arith, count_ones-le (ages 0));
  age = ground (arith, count_ones-le (ages 0));
  count = ground (arith, count_ones-le (ages 0));
  least = IsFirstLeast-one (λ j. lapa_key (ages j));
}

lapa_loop-least :
    (pages : List Page) (live : List ℕ) (free : ℕ)
    → AllPages pages live
    → length live ≡ max_psyc_pages
    → (k : ℕ) × (t : LapaState) × (lapa_loop max_psyc_pages 0 start pages (slots live free) ≡ ok t)
      × Keeps (age_of pages live) max_psyc_pages t k
unfolding lapa_loop
lapa_loop-least pages live free all full =
    let (k, t, runs, l) =
      lapa_loop-Keeps 15 1 0 _ pages live free all (omega arith)
        (lapa_step-start (age_of pages live)) in
    (
      k,
      t,
      rw (age_at-ok pages live free 0 all (omega arith)) runs,
      subst (λ n. Keeps (age_of pages live) n t k) full l,
    )

-- On a full queue of pages, the victim of `removeLAPA` is the first item of the queue whose age has
-- the fewest binary ones and, among as many, is the least as an `int`, and the queue keeps the other items in their order.
pub remove_lapa-least :
    {p : Proc} (live : List ℕ)
    → Holds p.in_ram_queue live
    → length live ≡ max_psyc_pages
    → AllPages p.pages_ds live
    → (i : ℕ) × (v : ℕ) × (get_elem? live i ≡ some v)
      × IsFirstLeast (λ j. lapa_key (age_of p.pages_ds live j)) max_psyc_pages i
      × (remove_lapa p ≡ ok (some v, record p { in_ram_queue = fix_queue i p.in_ram_queue }))
      × Holds (fix_queue i p.in_ram_queue) (remove_at i live)
unfolding remove_lapa start
remove_lapa-least {p} live h full all =
    let (i, t, runs, k) = lapa_loop-least p.pages_ds live 0 all full in
    let (v, at) = get_elem?-some live i (below i k.least) in
    (i, v, at, k.least, returned i v t runs k.index at, fix_queue-Holds i h (below i k.least))
  where
    below : {key : ℕ → ℕ} (i : ℕ) → IsFirstLeast key max_psyc_pages i → i < length live
    below i l = omega (arith, l.below)

    returned :
        (i v : ℕ) (t : LapaState)
        → lapa_loop max_psyc_pages 0 start p.pages_ds (slots live 0) ≡ ok t
        → t.min_i ≡ some i
        → get_elem? live i ≡ some v
        → remove_lapa p ≡ ok (some v, record p { in_ram_queue = fix_queue i p.in_ram_queue })
    returned i v t runs index at =
        rw (ap (lapa_loop max_psyc_pages 0 start p.pages_ds) (layout-free h 0 (omega arith)) ∙ runs)
          (rw (index, remove_lapa)
            (ap (λ s. ok (s, record p { in_ram_queue = fix_queue i p.in_ram_queue }))
              (get_or-Holds i h at)))
