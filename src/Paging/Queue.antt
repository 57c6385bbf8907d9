-- ===== src/Paging/Queue.antt =====
-- The queues of proc.c as arrays: `Holds q live` says that the 16 slots of `q` hold the items
-- `live`, in order, and -1 behind them.
use os182_ass.Prelude.{
  ==_of_ne, length, get_or, set, replicate, remove_at, length-append, length-replicate,
  length-remove_at, ℕ, zero, suc, ◌+◌, ◌-◌, ◌≤◌, ◌<◌, ◌≡◌, refl, ap, ◌∙◌, ◌⊎◌, inl, inr, none, some,
  List, [], ◌∷◌, ◌++◌, map, arith, dec_lt,
}
use os182_ass.Prelude.Outcome.{ok, fault}
use os182_ass.Paging.{Slot, Proc, max_psyc_pages, shift_loop, fix_queue, insert_loop, insert}

abbrev pub slots : List ℕ → ℕ → List Slot
slots live free = map some live ++ replicate free none

pub record Holds (q : List Slot) (live : List ℕ) : Type 0 where
  pub room : length live ≤ max_psyc_pages
  pub layout : q ≡ slots live (max_psyc_pages - length live)

pub length-slots : (live : List ℕ) (free : ℕ) → length (slots live free) ≡ length live + free
length-slots [] free = omega (arith, length-replicate {A = Slot} free none)
length-slots (x ∷ live) free = omega (arith, length-slots live free)

-- The loop leaves the slots before `index` alone.
shift_loop-cons :
    (rounds index : ℕ) (x : Slot) (q : List Slot)
    → shift_loop rounds (suc index) (x ∷ q) ≡ x ∷ shift_loop rounds index q
unfolding shift_loop
shift_loop-cons zero index x q = refl
shift_loop-cons (suc rounds) index x q =
    shift_loop-cons rounds (suc index) x (set q index (get_or q (suc index) none))

-- From the first slot on, it drops the first item and leaves the last one twice.
shift_loop-head :
    (x : Slot) (q : List Slot)
    → shift_loop (length q) 0 (x ∷ q) ≡ q ++ get_or (x ∷ q) (length q) none ∷ []
unfolding shift_loop
shift_loop-head x [] = refl
shift_loop-head x (y ∷ q) =
    shift_loop-cons (length q) 0 y (y ∷ q) ∙ ap (λ l. y ∷ l) (shift_loop-head y q)

shift_loop-at :
    (rounds index : ℕ) (x : Slot) (q : List Slot)
    → rounds + index ≡ length q
    → shift_loop rounds index (x ∷ q)
      ≡ remove_at index (x ∷ q) ++ get_or (x ∷ q) (length q) none ∷ []
shift_loop-at rounds zero x q h =
    let e : rounds ≡ length q = omega arith in rw e (shift_loop-head x q)
shift_loop-at rounds (suc index) x [] h = absurd (omega arith)
shift_loop-at rounds (suc index) x (y ∷ q) h =
    shift_loop-cons rounds index x (y ∷ q)
    ∙ ap (λ l. x ∷ l) (shift_loop-at rounds index y q (omega arith))

set-snoc : (xs : List Slot) (x v : Slot) → set (xs ++ x ∷ []) (length xs) v ≡ xs ++ v ∷ []
set-snoc [] x v = refl
set-snoc (y ∷ xs) x v = ap (λ l. y ∷ l) (set-snoc xs x v)

-- `fixQueue` drops the item at `index` and puts -1 in the last slot.
pub fix_queue-remove_at :
    (index : ℕ) (q : List Slot)
    → index < max_psyc_pages
    → length q ≡ max_psyc_pages
    → fix_queue index q ≡ remove_at index q ++ none ∷ []
unfolding fix_queue
fix_queue-remove_at index [] h len = absurd (omega arith)
fix_queue-remove_at index (x ∷ q) h len =
    rw (shift_loop-at (max_psyc_pages - 1 - index) index x q (omega arith), ← last)
      (set-snoc (remove_at index (x ∷ q)) (get_or (x ∷ q) (length q) none) none)
  where
    last : length (remove_at index (x ∷ q)) ≡ max_psyc_pages - 1
    last = omega (arith, length-remove_at index (x ∷ q))

remove_at-slots :
    (i : ℕ) (live : List ℕ) (free : ℕ)
    → i < length live
    → remove_at i (slots live free) ≡ slots (remove_at i live) free
remove_at-slots i [] free h = absurd (omega arith)
remove_at-slots zero (x ∷ live) free h = refl
remove_at-slots (suc i) (x ∷ live) free h =
    ap (λ l. some x ∷ l) (remove_at-slots i live free (omega arith))

slots-snoc_none : (live : List ℕ) (free : ℕ) → slots live free ++ none ∷ [] ≡ slots live (suc free)
slots-snoc_none [] zero = refl
slots-snoc_none [] (suc free) = ap (λ l. none ∷ l) (slots-snoc_none [] free)
slots-snoc_none (x ∷ live) free = ap (λ l. some x ∷ l) (slots-snoc_none live free)

pub length-Holds : {q : List Slot} {live : List ℕ} → Holds q live → length q ≡ max_psyc_pages
length-Holds {live} h =
    rw h.layout (omega (arith, length-slots live (max_psyc_pages - length live), h.room))

pub layout-free :
    {q : List Slot} {live : List ℕ}
    → Holds q live
    → (free : ℕ) → length live + free ≡ max_psyc_pages
    → q ≡ slots live free
layout-free {live} h free e = h.layout ∙ ap (slots live) (omega arith)

pub Holds-slots :
    (live : List ℕ) (free : ℕ) → length live + free ≡ max_psyc_pages → Holds (slots live free) live
Holds-slots live free e = record { room = omega arith; layout = ap (slots live) (omega arith) }

-- Of a queue that holds `live`, `fixQueue(index)` leaves one that holds `live` without its item at
-- `index`, in the same order.
pub fix_queue-Holds :
    {q : List Slot} {live : List ℕ} (index : ℕ)
    → Holds q live
    → index < length live
    → Holds (fix_queue index q) (remove_at index live)
fix_queue-Holds {q} {live} index h lt =
    rw
      (
        fix_queue-remove_at index q (omega (arith, h.room)) (length-Holds h),
        layout-free h free (omega (arith, h.room)),
        remove_at-slots index live free lt,
        slots-snoc_none (remove_at index live) free,
      )
      (Holds-slots (remove_at index live) (suc free)
        (omega (arith, length-remove_at index live lt, h.room)))
  where
    free : ℕ
    free = max_psyc_pages - length live

insert_loop-slots :
    (i : ℕ) (live : List ℕ) (free index : ℕ)
    → i + length live < max_psyc_pages
    → insert_loop i (slots live (suc free)) (some index) ≡ ok (slots (live ++ index ∷ []) free)
unfolding insert_loop
insert_loop-slots i [] free index h = refl
insert_loop-slots i (x ∷ live) free index h = rw (
  ==_of_ne i max_psyc_pages (omega arith),
  insert_loop-slots (i + 1) live free index (omega arith),
)

-- While a slot is free, the item goes behind the last one.
pub insert_loop-Holds :
    {q : List Slot} {live : List ℕ} (index : ℕ)
    → Holds q live
    → length live < max_psyc_pages
    → (r : List Slot) × (insert_loop 0 q (some index) ≡ ok r) × Holds r (live ++ index ∷ [])
insert_loop-Holds {q} {live} index h lt = (
  slots (live ++ index ∷ []) free,
  rw (layout-free h (suc free) (omega arith)) (insert_loop-slots 0 live free index (omega arith)),
  Holds-slots (live ++ index ∷ []) free (omega (arith, length-append live (index ∷ []))),
)
  where
    free : ℕ
    free = max_psyc_pages - length live - 1

insert_loop-full :
    (i : ℕ) (live : List ℕ) (index : Slot)
    → i + length live ≡ max_psyc_pages
    → insert_loop i (slots live 0) index ≡ fault
unfolding insert_loop
insert_loop-full i [] index h = refl
insert_loop-full i (x ∷ live) index h =
    rw (==_of_ne i max_psyc_pages (omega arith), insert_loop-full (i + 1) live index (omega arith))

-- On a full queue the loop reads past the array; its `panic` is not reached first.
pub insert_loop-Full :
    {q : List Slot} {live : List ℕ} (index : Slot)
    → Holds q live
    → length live ≡ max_psyc_pages
    → insert_loop 0 q index ≡ fault
insert_loop-Full {q} {live} index h full =
    rw (layout-free h 0 (omega arith)) (insert_loop-full 0 live index (omega arith))

-- `insert` puts the page behind the resident ones while a slot is free; on a full queue it reads
-- past the end of the array, and its own overflow check does not come first.
pub insert_lem :
    (p : Proc) (live : List ℕ) (index : ℕ)
    → Holds p.in_ram_queue live
    → ((length live < max_psyc_pages)
        × (q : List Slot) × (insert index p ≡ ok (record p { in_ram_queue = q }))
        × Holds q (live ++ index ∷ []))
      ⊎ ((length live ≡ max_psyc_pages) × (insert index p ≡ fault))
unfolding insert
insert_lem p live index h = elim (dec_lt (length live) max_psyc_pages) [
  | yes lt ↦ let (q, runs, holds) = insert_loop-Holds index h lt in inl (lt, q, rw runs, holds)
  | no full ↦
      inr (omega (arith, h.room), rw (insert_loop-Full (some index) h (omega (arith, h.room))))
]
