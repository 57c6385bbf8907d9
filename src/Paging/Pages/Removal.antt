-- ===== src/Paging/Pages/Removal.antt =====
-- What `deallocatePage` does to the queue of resident pages and to the offsets.
use os182_ass.Prelude.{
  ◌==◌, if◌then◌else◌, Bool-cases, Option-cases, length, get_elem?, set, replicate, remove_at,
  length-append, append-cons, ℕ, zero, suc, ◌+◌, ◌-◌, ◌≡◌, refl, sym, ap, subst, ◌≢◌, inl, inr, not,
  ◌&&◌, none, some, List, [], ◌∷◌, ◌++◌, arith,
}
use os182_ass.Prelude.Outcome.{ok, panic}
use os182_ass.Paging.{Slot, Page, Proc, max_psyc_pages, fix_queue}
use os182_ass.Paging.Queue.{slots, Holds, layout-free, fix_queue-Holds}
use os182_ass.Paging.Pages.{find_page, freed_page, drop_index, deallocate_page}
use os182_ass.Paging.Pages.Offsets.{OffsetsValid}

-- The page that `find_page` finds is allocated and at `va`.
pub record Found (va : ℕ) (pages : List Page) (i : ℕ) : Type 0 where
  pub page : Page
  pub here : get_elem? pages i ≡ some page
  pub allocated : page.is_allocated ≢ 0
  pub address : page.v_address ≡ va

find_page-Found :
    (va i : ℕ) (pages : List Page) {k : ℕ}
    → find_page va i pages ≡ some k
    → (j : ℕ) × (k ≡ i + j) × Found va pages j
unfolding find_page
find_page-Found va i [] e = cc
find_page-Found va i (page ∷ pages) {k} e =
    elim (Bool-cases (not (page.is_allocated == 0) && (page.v_address == va))) [
      | inl h ↦ (
        0,
        ground arith,
        record { page = page; here = refl; allocated = ground arith; address = ground arith },
      )
      | inr h ↦
          let (j, at, f) = find_page-Found va (suc i) pages {k = k} (ground arith) in
          (
            suc j,
            omega arith,
            record { page = f.page; here = f.here; allocated = f.allocated; address = f.address },
          )
    ]

-- The items other than `idx`, up to the first one that is `idx`.
pub remove_first : ℕ → List ℕ → List ℕ
remove_first idx [] = []
remove_first idx (x ∷ xs) = if x == idx then xs else x ∷ remove_first idx xs

drop_index-none :
    (idx i free : ℕ) (whole : List Slot) → drop_index idx i (replicate free none) whole ≡ whole
unfolding drop_index
drop_index-none idx i zero whole = refl
drop_index-none idx i (suc free) whole = drop_index-none idx (suc i) free whole

remove_at-front :
    (front : List ℕ) (x : ℕ) (xs : List ℕ)
    → remove_at (length front) (front ++ x ∷ xs) ≡ front ++ xs
remove_at-front [] x xs = refl
remove_at-front (y ∷ front) x xs = ap (λ l. y ∷ l) (remove_at-front front x xs)

drop_index-from :
    (idx i : ℕ) (front live : List ℕ) (free : ℕ) {whole : List Slot}
    → i ≡ length front
    → Holds whole (front ++ live)
    → Holds (drop_index idx i (slots live free) whole) (front ++ remove_first idx live)
unfolding drop_index remove_first
drop_index-from idx i front [] free {whole} ei h = rw (drop_index-none idx i free whole) h
drop_index-from idx i front (x ∷ live) free {whole} ei h = elim (Bool-cases (x == idx)) [
  | inl e ↦
      rw (e, ei)
        (subst (Holds (fix_queue (length front) whole)) (remove_at-front front x live)
          (fix_queue-Holds (length front) h (omega (arith, length-append front (x ∷ live)))))
  | inr e ↦
      rw (e, append-cons front x (remove_first idx live))
        (drop_index-from idx (suc i) (front ++ x ∷ []) live free
          (omega (arith, length-append front (x ∷ [])))
          (subst (Holds whole) (append-cons front x live) h))
]

-- The queue keeps its other items, in their order.
pub drop_index-Holds :
    (idx : ℕ) {q : List Slot} {live : List ℕ}
    → Holds q live
    → Holds (drop_index idx 0 q q) (remove_first idx live)
drop_index-Holds idx {q} {live} h =
    subst (λ r. Holds (drop_index idx 0 r q) (remove_first idx live))
      (sym (layout-free h (max_psyc_pages - length live) (omega (arith, h.room))))
      (drop_index-from idx 0 [] live (max_psyc_pages - length live) (omega arith) h)

-- The free offsets, with that of a page that is not in RAM behind them.
abbrev pub given_back : Page → List ℕ → List ℕ
given_back page avail =
    if page.in_ram == 0
    then elim page.file_offset [ none ↦ avail | some o ↦ avail ++ o ∷ [] ]
    else avail

-- What a call of `deallocatePage` comes to.
pub record Freed (age0 va : ℕ) (p : Proc) (live avail : List ℕ) : Type 0 where
  pub idx : ℕ
  pub found : Found va p.pages_ds idx
  pub proc' : Proc
  pub runs : deallocate_page age0 va p ≡ ok proc'
  pub pages : proc'.pages_ds ≡ set p.pages_ds idx (freed_page age0)
  pub queue : Holds proc'.in_ram_queue (remove_first idx live)
  pub valid : OffsetsValid proc' (given_back found.page avail)

-- No allocated page at `va`: the kernel panics.
pub deallocate_page-panic :
    (age0 va : ℕ) (p : Proc)
    → ((i : ℕ) (page : Page)
        → get_elem? p.pages_ds i ≡ some page
        → page.is_allocated ≢ 0
        → page.v_address ≢ va)
    → deallocate_page age0 va p ≡ panic
unfolding deallocate_page
deallocate_page-panic age0 va p none_at = elim (Option-cases (find_page va 0 p.pages_ds)) [
  | inl e ↦ rw (e, deallocate_page)
  | inr (k, e) ↦
      let (j, ej, f) = find_page-Found va 0 p.pages_ds e in
      absurd (none_at j f.page f.here f.allocated f.address)
]
