-- ===== src/Paging/Aging/Tick.antt =====
-- What `agePages` does to the ages.
use os182_ass.Prelude.{
  ◌==◌, if◌then◌else◌, Bool-cases, All, ℕ, ◌+◌, ◌/◌, ◌^◌, ◌<◌, ◌≡◌, refl, ap, ap₂, ◌∙◌, ◌≢◌, inl,
  inr, Bool, true, false, none, some, List, [], ◌∷◌, map, arith, ℕ_discrete,
}
use os182_ass.Prelude.Outcome.{ok}
use os182_ass.Prelude.Bits.{has_bit, bit_off}
use os182_ass.Memory.{Mem, pgsize, write, write_ne}
use os182_ass.Vm.Walk.{walk, IsTree, walk-same_page, walk-write, IsTree-write}
use os182_ass.Paging.{Page, Proc}
use os182_ass.Paging.Aging.{age_page, age_loop, age_pages}

-- The accessed bit of a page.
abbrev pub touched : Mem → ℕ → Page → Bool
touched m pgdir page = elim (walk m pgdir page.v_address) [
  | none ↦ false
  | some pte ↦ has_bit 5 (m pte)
]

-- The age is halved, and gets the top bit if the page was accessed.
abbrev pub aged : Mem → ℕ → Page → Page
aged m pgdir page =
    if page.is_allocated == 1
    then record page { age = page.age / 2 + (if touched m pgdir page then 2 ^ 31 else 0) }
    else page

-- An allocated page has an entry.
pub record Entry (m : Mem) (pgdir : ℕ) (page : Page) : Type 0 where
  pub word : page.age < 2 ^ 32
  pub fits : page.v_address < 2 ^ 32
  pub present : page.is_allocated ≡ 1 → (pte : ℕ) × (walk m pgdir page.v_address ≡ some pte)

-- Two allocated pages are different pages of virtual memory.
abbrev pub Far : Page → Page → Type 0
Far a b = a.is_allocated ≡ 1 → b.is_allocated ≡ 1 → a.v_address / pgsize ≢ b.v_address / pgsize

abbrev pub AllFar : List Page → Type 0
AllFar [] = Unit
AllFar (page ∷ pages) = All (Far page) pages × AllFar pages

module _ {m : Mem} {pgdir : ℕ} (t : IsTree m pgdir) (page : Page) {pte : ℕ}
    (walks : walk m pgdir page.v_address ≡ some pte) where
  abbrev cleared : Mem
  cleared = write m pte (bit_off 5 (m pte))

  Entry-cleared : (pages : List Page) → All (Entry m pgdir) pages → All (Entry cleared pgdir) pages
  Entry-cleared [] h = tt
  Entry-cleared (b ∷ pages) h = (
    record {
      word = h.0.word;
      fits = h.0.fits;
      present = λ live.
          let (q, e) = h.0.present live in
          (q, walk-write t page.v_address (bit_off 5 (m pte)) walks b.v_address ∙ e);
    },
    Entry-cleared pages h.1,
  )

  -- Clearing the bit of one page changes no other.
  aged-cleared_one :
      (b : Page)
      → page.is_allocated ≡ 1
      → page.v_address < 2 ^ 32
      → Entry m pgdir b
      → Far page b
      → aged cleared pgdir b ≡ aged m pgdir b
  aged-cleared_one b here fits entry far = elim (ℕ_discrete b.is_allocated 1) [
    | no other ↦ ground arith
    | yes live ↦
        let (q, e) = entry.present live in
        let moved : walk cleared pgdir b.v_address ≡ some q =
          walk-write t page.v_address (bit_off 5 (m pte)) walks b.v_address ∙ e in
        let ne : q ≢ pte = λ same. far here live (
          walk-same_page t page.v_address b.v_address fits entry.fits walks
            (e ∙ ap (λ x. some x) same)) in
        let keeps : cleared q ≡ m q = write_ne m pte (bit_off 5 (m pte)) q ne in
        let bit : touched cleared pgdir b ≡ touched m pgdir b = ground (arith, moved, e, keeps) in
        ap
          (λ (hot : Bool).
            if b.is_allocated == 1
            then record b { age = b.age / 2 + (if hot then 2 ^ 31 else 0) }
            else b)
          bit
  ]

  aged-cleared :
      (pages : List Page)
      → page.is_allocated ≡ 1
      → page.v_address < 2 ^ 32
      → All (Entry m pgdir) pages
      → All (Far page) pages
      → map (aged cleared pgdir) pages ≡ map (aged m pgdir) pages
  aged-cleared [] here fits entries far = refl
  aged-cleared (b ∷ pages) here fits entries far =
      ap₂ ◌∷◌ (aged-cleared_one b here fits entries.0 far.0)
        (aged-cleared pages here fits entries.1 far.1)

age_page-hot :
    (m : Mem) (pgdir : ℕ) (page : Page) {pte : ℕ}
    → page.is_allocated ≡ 1
    → page.age < 2 ^ 32
    → walk m pgdir page.v_address ≡ some pte
    → has_bit 5 (m pte) ≡ true
    → age_page m pgdir page ≡ ok (write m pte (bit_off 5 (m pte)), aged m pgdir page)
unfolding age_page
age_page-hot m pgdir page live word walks hot = ground (arith, live, walks, hot)

age_page-skip :
    (m : Mem) (pgdir : ℕ) (page : Page)
    → page.is_allocated ≢ 1
    → age_page m pgdir page ≡ ok (m, aged m pgdir page)
unfolding age_page
age_page-skip m pgdir page other = ground arith

age_page-cold :
    (m : Mem) (pgdir : ℕ) (page : Page) {pte : ℕ}
    → page.is_allocated ≡ 1
    → walk m pgdir page.v_address ≡ some pte
    → has_bit 5 (m pte) ≡ false
    → age_page m pgdir page ≡ ok (m, aged m pgdir page)
unfolding age_page
age_page-cold m pgdir page live walks cold = ground (arith, live, walks, cold)

age_loop-aged :
    (pages : List Page) {m : Mem} {pgdir : ℕ}
    → IsTree m pgdir
    → All (Entry m pgdir) pages
    → AllFar pages
    → (m' : Mem) × (age_loop m pgdir pages ≡ ok (m', map (aged m pgdir) pages))
unfolding age_loop
age_loop-aged [] {m} t entries far = (m, refl)
age_loop-aged (page ∷ pages) {m} {pgdir} t entries far = elim (ℕ_discrete page.is_allocated 1) [
  | no other ↦
      let (m', runs) = age_loop-aged pages t entries.1 far.1 in
      let skip : (page.is_allocated == 1) ≡ false = ground arith in
      (m', rw (age_page-skip m pgdir page other, runs) refl)
  | yes live ↦
      let (pte, walks) = entries.0.present live in
      elim (Bool-cases (has_bit 5 (m pte))) [
        | inl hot ↦
            let (m', runs) =
              age_loop-aged pages (IsTree-write t page.v_address (bit_off 5 (m pte)) walks)
                (Entry-cleared t page walks pages entries.1) far.1 in
            (
              m',
              rw (age_page-hot m pgdir page live entries.0.word walks hot, runs)
                  (ap (λ l. ok (m', aged m pgdir page ∷ l))
                    (aged-cleared t page walks pages live entries.0.fits entries.1 far.0)),
            )
        | inr cold ↦
            let (m', runs) = age_loop-aged pages t entries.1 far.1 in
            (m', rw (age_page-cold m pgdir page live walks cold, runs) refl)
      ]
]

-- `agePages`, on a page table with an entry for each allocated page, at different addresses, halves
-- the age of each allocated page and sets its top bit if the page was accessed since the last call;
-- nothing else in the process changes.
pub age_pages-aged :
    (m : Mem) (p : Proc)
    → IsTree m p.pgdir
    → All (Entry m p.pgdir) p.pages_ds
    → AllFar p.pages_ds
    → (m' : Mem) × (age_pages m p
        ≡ ok (m', record p { pages_ds = map (aged m p.pgdir) p.pages_ds }))
unfolding age_pages
age_pages-aged m p t entries far =
    let (m', runs) = age_loop-aged p.pages_ds t entries far in (m', rw runs refl)
