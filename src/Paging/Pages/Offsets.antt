-- ===== src/Paging/Pages/Offsets.antt =====
-- Offsets of the swap file: each is held by one page that is swapped out, or waits in the queue of
-- free offsets, or was never handed out.
use os182_ass.Prelude.{
  ◌==◌, if◌then◌else◌, length, get_elem?, get_or, set, ℕ, zero, suc, ◌+◌, ◌%◌, ◌^◌, ◌≤◌, ◌<◌, ◌≡◌,
  refl, ◌≢◌, ◌⊎◌, inl, inr, not, ◌&&◌, none, some, List, [], ◌∷◌, ◌++◌, arith, dec_lt,
}
use os182_ass.Prelude.Outcome.{ok}
use os182_ass.Memory.{pgsize}
use os182_ass.Paging.{
  Slot, Page, Proc, max_psyc_pages, fix_queue, fix_offset_queue, remove_offset_queue,
  insert_offset_queue, get_free_file_offset,
}
use os182_ass.Paging.Queue.{Holds, fix_queue-Holds, insert_loop-Holds}

abbrev pub tally : ℕ → List ℕ → ℕ
tally a [] = 0
tally a (x ∷ xs) = (if x == a then 1 else 0) + tally a xs

pub tally-append : (a : ℕ) (xs ys : List ℕ) → tally a (xs ++ ys) ≡ tally a xs + tally a ys
tally-append a [] ys = omega arith
tally-append a (x ∷ xs) ys = omega (arith, tally-append a xs ys)

-- How many of the pages, allocated and not in RAM, hold offset `a`.
abbrev pub holds_offset : ℕ → Page → ℕ
holds_offset a page =
    if not (page.is_allocated == 0) && (page.in_ram == 0)
    then elim page.file_offset [ none ↦ 0 | some o ↦ if o == a then 1 else 0 ]
    else 0

abbrev pub holders : ℕ → List Page → ℕ
holders a [] = 0
holders a (page ∷ pages) = holds_offset a page + holders a pages

pub holders-set :
    (a : ℕ) (pages : List Page) (i : ℕ) (old new : Page)
    → get_elem? pages i ≡ some old
    → holders a (set pages i new) + holds_offset a old ≡ holders a pages + holds_offset a new
holders-set a [] i old new e = cc
holders-set a (page ∷ pages) zero old new e = let e' : page ≡ old = cc in rw e' (omega arith)
holders-set a (page ∷ pages) (suc i) old new e = omega (arith, holders-set a pages i old new e)

-- `avail` are the free offsets, in the order in which they are handed out.
pub record OffsetsValid (p : Proc) (avail : List ℕ) : Type 0 where
  pub queue : Holds p.available_offset_queue avail
  pub unique : (a : ℕ) → tally a avail + holders a p.pages_ds ≤ 1
  pub handed_out : (a : ℕ) → p.file_offset ≤ a → tally a avail + holders a p.pages_ds ≡ 0
  pub slots : (a : ℕ) → 0 < tally a avail + holders a p.pages_ds → a % pgsize ≡ 0
  pub next_slot : p.file_offset % pgsize ≡ 0

-- An offset that no page holds and that is not in the queue of free offsets.
pub record Fresh (p : Proc) (avail : List ℕ) (o : ℕ) : Type 0 where
  pub not_free : tally o avail ≡ 0
  pub not_held : holders o p.pages_ds ≡ 0

get_or-head : {q : List Slot} (x : ℕ) (xs : List ℕ) → Holds q (x ∷ xs) → get_or q 0 none ≡ some x
get_or-head x xs h = rw h.layout

get_or-empty : {q : List Slot} → Holds q [] → get_or q 0 none ≡ none
get_or-empty h = rw h.layout

-- The pages of the file at the two offsets do not overlap.
abbrev pub Apart : ℕ → ℕ → Type 0
Apart a b = (a + pgsize ≤ b) ⊎ (b + pgsize ≤ a)

slots-Apart : (a b : ℕ) → a % pgsize ≡ 0 → b % pgsize ≡ 0 → a ≢ b → Apart a b
slots-Apart a b ma mb ne = elim (dec_lt a b) [
  | yes lt ↦ inl (omega (arith, lt, ma, mb))
  | no ge ↦ inr (omega (arith, ge, ne, ma, mb))
]

-- What `getFreeFileOffset` has done: the offset is fresh in the process that it leaves.
pub record Handed (p : Proc) (avail : List ℕ) : Type 0 where
  pub offset : ℕ
  pub rest : List ℕ
  pub proc' : Proc
  pub runs : get_free_file_offset p ≡ (offset, proc')
  pub valid : OffsetsValid proc' rest
  pub fresh : Fresh proc' rest offset
  pub pages : proc'.pages_ds ≡ p.pages_ds
  pub inside : offset + pgsize ≤ proc'.file_offset
  pub no_overlap : (a : ℕ) → 0 < tally a rest + holders a proc'.pages_ds → Apart offset a

-- `getFreeFileOffset` hands out a page of the swap file that overlaps no page of the file that is free
-- or holds a swapped out page, and lies below `fileOffset`; it keeps the offsets multiples of the page
-- size, each used once, as long as the size of the swap file does not wrap.
pub get_free_file_offset-Handed :
    {p : Proc} (avail : List ℕ)
    → OffsetsValid p avail
    → p.file_offset + 4096 < 2 ^ 32
    → Handed p avail
unfolding get_free_file_offset remove_offset_queue fix_offset_queue fix_queue
get_free_file_offset-Handed {p} [] v small = record {
  offset = p.file_offset;
  rest = [];
  proc' = record p { file_offset = (p.file_offset + 4096) % 2 ^ 32 };
  runs = ground (arith, get_or-empty v.queue);
  valid = record {
    queue = v.queue;
    unique = v.unique;
    handed_out = λ a h. v.handed_out a (omega arith);
    slots = v.slots;
    next_slot = omega (arith, v.next_slot);
  };
  fresh = record {
    not_free = refl;
    not_held = omega (arith, v.handed_out p.file_offset (omega arith));
  };
  pages = refl;
  inside = omega (arith, small);
  no_overlap = λ a used.
      slots-Apart p.file_offset a v.next_slot (v.slots a used)
        (λ e. omega (arith, v.handed_out a (omega (arith, e)), used));
}
get_free_file_offset-Handed {p} (o ∷ avail) v small = record {
  offset = o;
  rest = avail;
  proc' = record p { available_offset_queue = fix_queue 0 p.available_offset_queue };
  runs = ground (arith, get_or-head o avail v.queue);
  valid = record {
    queue = fix_queue-Holds 0 v.queue (omega arith);
    unique = λ a. omega (arith, v.unique a);
    handed_out = λ a h. omega (arith, v.handed_out a h);
    slots = λ a h. v.slots a (omega (arith, h));
    next_slot = v.next_slot;
  };
  fresh = record { not_free = ground (arith, v.unique o); not_held = ground (arith, v.unique o) };
  pages = refl;
  inside =
      let low : o < p.file_offset = ground (arith, v.handed_out o) in
      let at : o % pgsize ≡ 0 = v.slots o (ground arith) in omega (arith, low, at, v.next_slot);
  no_overlap = λ a used.
      slots-Apart o a (v.slots o (ground arith)) (v.slots a (omega (arith, used)))
        (λ e. ground (arith, v.unique a, used, e));
}

-- `insertOffsetQueue` on a free slot: the offset goes behind the free ones, and nothing else of the
-- process changes.
pub insert_offset_queue-Holds :
    {p : Proc} (avail : List ℕ) (o : ℕ)
    → Holds p.available_offset_queue avail
    → length avail < max_psyc_pages
    → (q : List Slot) × (insert_offset_queue (some o) p
        ≡ ok (record p { available_offset_queue = q }))
      × Holds q (avail ++ o ∷ [])
unfolding insert_offset_queue
insert_offset_queue-Holds {p} avail o h lt =
    let (q, runs, holds) = insert_loop-Holds o h lt in (q, rw runs, holds)
