-- ===== src/Paging/Scfifo/Sweep.antt =====
-- The first loop of `removeSCFIFO`, on a queue of resident pages with page table entries of their
-- own: it clears the accessed bit of each page up to the first whose bit is clear.
use mathlib.Core.List.{append_assoc, append-nil}
use os182_ass.Prelude.{
  get_elem?, All, ℕ, ◌/◌, ◌^◌, ◌<◌, ◌≡◌, refl, sym, ap, ◌∙◌, ◌≢◌, Bool, true, false, Option, none,
  some, List, [], ◌∷◌, ◌++◌, map, arith,
}
use os182_ass.Prelude.Outcome.{ok}
use os182_ass.Prelude.Bits.{has_bit, bit_off}
use os182_ass.Memory.{Mem, pgsize, write, write_self, write_ne}
use os182_ass.Vm.Walk.{walk, IsTree, walk-same_page, walk-write, IsTree-write}
use os182_ass.Paging.{Slot, Page}
use os182_ass.Paging.Queue.{slots}
use os182_ass.Paging.Scfifo.{pte_a, scan}

-- Where the page table entry of page `idx` lies, and its accessed bit.
abbrev pub pte_of : Mem → ℕ → List Page → ℕ → Option ℕ
pte_of m pgdir pages idx = elim (get_elem? pages idx) [
  | none ↦ none
  | some page ↦ walk m pgdir page.v_address
]

abbrev pub accessed : Mem → ℕ → List Page → ℕ → Bool
accessed m pgdir pages idx = elim (pte_of m pgdir pages idx) [
  | none ↦ false
  | some pte ↦ has_bit pte_a (m pte)
]

-- The accessed bits of these pages cleared, in order.
abbrev pub clear : Mem → ℕ → List Page → ℕ → Mem
clear m pgdir pages idx = elim (pte_of m pgdir pages idx) [
  | none ↦ m
  | some pte ↦ write m pte (bit_off pte_a (m pte))
]

unfoldable pub clear_all : Mem → ℕ → List Page → List ℕ → Mem
clear_all m pgdir pages [] = m
clear_all m pgdir pages (x ∷ xs) = clear_all (clear m pgdir pages x) pgdir pages xs

-- The entry of page `idx` is there.
pub record Mapped (m : Mem) (pgdir : ℕ) (pages : List Page) (idx : ℕ) : Type 0 where
  pub page : Page
  pub pte : ℕ
  pub here : get_elem? pages idx ≡ some page
  pub walks : walk m pgdir page.v_address ≡ some pte
  pub fits : page.v_address < 2 ^ 32

-- Pages `i` and `j` are different pages of virtual memory.
abbrev pub Apart : List Page → ℕ → ℕ → Type 0
Apart pages i j =
    (a b : Page)
    → get_elem? pages i ≡ some a
    → get_elem? pages j ≡ some b
    → a.v_address / pgsize ≢ b.v_address / pgsize

abbrev pub AllApart : List Page → List ℕ → Type 0
AllApart pages [] = Unit
AllApart pages (x ∷ xs) = All (Apart pages x) xs × AllApart pages xs

module _ {m : Mem} {pgdir : ℕ} {pages : List Page} (t : IsTree m pgdir) where
  module _ {x : ℕ} (mx : Mapped m pgdir pages x) where
    clear-write : clear m pgdir pages x ≡ write m mx.pte (bit_off pte_a (m mx.pte))
    clear-write = ground (arith, mx.here, mx.walks)

    pub IsTree-clear : IsTree (clear m pgdir pages x) pgdir
    IsTree-clear =
        rw clear-write (IsTree-write t mx.page.v_address (bit_off pte_a (m mx.pte)) mx.walks)

    walk-clear : (va : ℕ) → walk (clear m pgdir pages x) pgdir va ≡ walk m pgdir va
    walk-clear va =
        rw clear-write (walk-write t mx.page.v_address (bit_off pte_a (m mx.pte)) mx.walks va)

    Mapped-clear : {y : ℕ} → Mapped m pgdir pages y → Mapped (clear m pgdir pages x) pgdir pages y
    Mapped-clear my = record {
      page = my.page;
      pte = my.pte;
      here = my.here;
      walks = walk-clear my.page.v_address ∙ my.walks;
      fits = my.fits;
    }

    pub accessed-clear_self : accessed (clear m pgdir pages x) pgdir pages x ≡ false
    accessed-clear_self = ground (
      arith,
      mx.here,
      clear-write,
      walk-clear mx.page.v_address,
      mx.walks,
      write_self m mx.pte (bit_off pte_a (m mx.pte)),
    )

    accessed-clear_ne :
        {y : ℕ}
        → Mapped m pgdir pages y
        → Apart pages x y
        → accessed (clear m pgdir pages x) pgdir pages y ≡ accessed m pgdir pages y
    accessed-clear_ne my far = ground (
      arith,
      my.here,
      my.walks,
      clear-write,
      walk-clear my.page.v_address,
      write_ne m mx.pte (bit_off pte_a (m mx.pte)) my.pte (λ e.
          far mx.page my.page mx.here my.here (
            walk-same_page t mx.page.v_address my.page.v_address mx.fits my.fits mx.walks
              (my.walks ∙ ap (λ q. some q) e))),
    )

  scan-next :
      {x : ℕ} (mx : Mapped m pgdir pages x) (temp q : List Slot)
      → accessed m pgdir pages x ≡ true
      → scan m pgdir pages temp (some x ∷ q)
        ≡ scan (clear m pgdir pages x) pgdir pages (temp ++ some x ∷ []) q
  unfolding scan
  scan-next {x} mx temp q h = ground (arith, mx.here, mx.walks)

  scan-stop :
      {x : ℕ} (mx : Mapped m pgdir pages x) (temp q : List Slot)
      → accessed m pgdir pages x ≡ false
      → scan m pgdir pages temp (some x ∷ q)
        ≡ ok (record { mem = m; index = some x; temp = temp; rest = q })
  unfolding scan
  scan-stop {x} mx temp q h = ground (arith, mx.here, mx.walks)

-- The pages of the queue are mapped, at different addresses.
pub record Sweepable (m : Mem) (pgdir : ℕ) (pages : List Page) (xs : List ℕ) : Type 0 where
  pub tree : IsTree m pgdir
  pub mapped : All (Mapped m pgdir pages) xs
  pub far : AllApart pages xs

All-clear :
    {m : Mem} {pgdir : ℕ} {pages : List Page} {x : ℕ} (xs : List ℕ)
    → IsTree m pgdir
    → Mapped m pgdir pages x
    → All (Mapped m pgdir pages) xs
    → All (Mapped (clear m pgdir pages x) pgdir pages) xs
All-clear [] t mx h = tt
All-clear (y ∷ xs) t mx h = (Mapped-clear t mx h.0, All-clear xs t mx h.1)

Sweepable-clear :
    {m : Mem} {pgdir : ℕ} {pages : List Page} {x : ℕ} {xs : List ℕ}
    → Sweepable m pgdir pages (x ∷ xs)
    → Sweepable (clear m pgdir pages x) pgdir pages xs
Sweepable-clear {xs} s = record {
  tree = IsTree-clear s.tree s.mapped.0;
  mapped = All-clear xs s.tree s.mapped.0 s.mapped.1;
  far = s.far.1;
}

-- Every one of these pages has the accessed bit `b`.
abbrev pub AllBits : Mem → ℕ → List Page → Bool → List ℕ → Type 0
AllBits m pgdir pages b = All (λ x. accessed m pgdir pages x ≡ b)

-- Clearing the bit of one page changes that of no other.
AllBits-clear :
    {m : Mem} {pgdir : ℕ} {pages : List Page} {x : ℕ} (xs : List ℕ) (b : Bool)
    → IsTree m pgdir
    → Mapped m pgdir pages x
    → All (Mapped m pgdir pages) xs
    → All (Apart pages x) xs
    → AllBits m pgdir pages b xs
    → AllBits (clear m pgdir pages x) pgdir pages b xs
AllBits-clear [] b t mx h far bits = tt
AllBits-clear (y ∷ xs) b t mx h far bits =
    (accessed-clear_ne t mx h.0 far.0 ∙ bits.0, AllBits-clear xs b t mx h.1 far.1 bits.1)

module _ (P : ℕ → Type 0) where
  pub All-left : (xs ys : List ℕ) → All P (xs ++ ys) → All P xs
  All-left [] ys h = tt
  All-left (x ∷ xs) ys h = (h.0, All-left xs ys h.1)

  pub All-right : (xs ys : List ℕ) → All P (xs ++ ys) → All P ys
  All-right [] ys h = h
  All-right (x ∷ xs) ys h = All-right xs ys h.1

-- The loop passes the pages whose bit is set, and clears it.
scan-pass :
    (before tail : List ℕ) {m : Mem} {pgdir : ℕ} {pages : List Page} (temp q : List Slot)
    → Sweepable m pgdir pages (before ++ tail)
    → AllBits m pgdir pages true before
    → scan m pgdir pages temp (map (λ x. some x) before ++ q)
      ≡ scan (clear_all m pgdir pages before) pgdir pages (temp ++ map (λ x. some x) before) q
unfolding clear_all
scan-pass [] tail temp q s bits = simp append-nil
scan-pass (x ∷ before) tail {m} {pgdir} {pages} temp q s bits =
    scan-next s.tree s.mapped.0 temp (map (λ y. some y) before ++ q) bits.0
    ∙ scan-pass before tail {m = clear m pgdir pages x} (temp ++ some x ∷ []) q (Sweepable-clear s)
        (AllBits-clear before true s.tree s.mapped.0
          (All-left (Mapped m pgdir pages) before tail s.mapped.1)
          (All-left (Apart pages x) before tail s.far.0) bits.1)
    ∙ simp append_assoc

-- After the pass the other pages are as they were.
pub Sweepable-clear_all :
    (before tail : List ℕ) {m : Mem} {pgdir : ℕ} {pages : List Page}
    → Sweepable m pgdir pages (before ++ tail)
    → Sweepable (clear_all m pgdir pages before) pgdir pages tail
unfolding clear_all
Sweepable-clear_all [] tail s = s
Sweepable-clear_all (x ∷ before) tail {m} {pgdir} {pages} s =
    Sweepable-clear_all before tail {m = clear m pgdir pages x} (Sweepable-clear s)

-- Clearing the bits of `xs` leaves that of any other page as it is.
accessed-clear_others :
    (xs : List ℕ) (y : ℕ) {m : Mem} {pgdir : ℕ} {pages : List Page}
    → IsTree m pgdir
    → All (Mapped m pgdir pages) xs
    → Mapped m pgdir pages y
    → All (λ x. Apart pages x y) xs
    → accessed (clear_all m pgdir pages xs) pgdir pages y ≡ accessed m pgdir pages y
unfolding clear_all
accessed-clear_others [] y t ms my far = refl
accessed-clear_others (x ∷ xs) y {m} {pgdir} {pages} t ms my far =
    accessed-clear_others xs y {m = clear m pgdir pages x} (IsTree-clear t ms.0)
      (All-clear xs t ms.0 ms.1) (Mapped-clear t ms.0 my) far.1
    ∙ accessed-clear_ne t ms.0 my far.0

Apart-front :
    (before after : List ℕ) (v : ℕ) (pages : List Page)
    → AllApart pages (before ++ v ∷ after)
    → All (λ x. Apart pages x v) before
Apart-front [] after v pages far = tt
Apart-front (x ∷ before) after v pages far =
    ((All-right (Apart pages x) before (v ∷ after) far.0).0, Apart-front before after v pages far.1)

Apart-sym :
    (xs : List ℕ) (x : ℕ) (pages : List Page)
    → All (Apart pages x) xs
    → All (λ y. Apart pages y x) xs
Apart-sym [] x pages far = tt
Apart-sym (y ∷ xs) x pages far =
    (λ a b ea eb e. far.0 b a eb ea (sym e), Apart-sym xs x pages far.1)

-- Clearing the bits of `before` leaves the bit of a page behind them as it is.
pub accessed-clear_all :
    (before after : List ℕ) (v : ℕ) {m : Mem} {pgdir : ℕ} {pages : List Page}
    → Sweepable m pgdir pages (before ++ v ∷ after)
    → accessed (clear_all m pgdir pages before) pgdir pages v ≡ accessed m pgdir pages v
accessed-clear_all before after v {m} {pgdir} {pages} s =
    accessed-clear_others before v s.tree
      (All-left (Mapped m pgdir pages) before (v ∷ after) s.mapped)
      (All-right (Mapped m pgdir pages) before (v ∷ after) s.mapped).0
      (Apart-front before after v pages s.far)

-- The bits of the pages that were passed are clear at the end.
pub AllBits-clear_all :
    (before tail : List ℕ) {m : Mem} {pgdir : ℕ} {pages : List Page}
    → Sweepable m pgdir pages (before ++ tail)
    → AllBits (clear_all m pgdir pages before) pgdir pages false before
unfolding clear_all
AllBits-clear_all [] tail s = tt
AllBits-clear_all (x ∷ before) tail {m} {pgdir} {pages} s = (
  accessed-clear_others before x {m = clear m pgdir pages x} s'.tree
        (All-left (Mapped (clear m pgdir pages x) pgdir pages) before tail s'.mapped)
        (Mapped-clear s.tree s.mapped.0 s.mapped.0)
        (Apart-sym before x pages (All-left (Apart pages x) before tail s.far.0))
      ∙ accessed-clear_self s.tree s.mapped.0,
  AllBits-clear_all before tail {m = clear m pgdir pages x} s',
)
  where
    s' : Sweepable (clear m pgdir pages x) pgdir pages (before ++ tail)
    s' = Sweepable-clear s

pub scan-All :
    (live : List ℕ) {m : Mem} {pgdir : ℕ} {pages : List Page}
    → Sweepable m pgdir pages live
    → AllBits m pgdir pages true live
    → scan m pgdir pages [] (slots live 0)
      ≡ ok (record {
        mem = clear_all m pgdir pages live;
        index = none;
        temp = map (λ x. some x) live;
        rest = [];
      })
unfolding scan
scan-All live s bits = scan-pass live [] [] [] (rw append-nil s) bits

split :
    (xs after : List ℕ) (v free : ℕ)
    → slots (xs ++ v ∷ after) free ≡ map (λ x. some x) xs ++ slots (v ∷ after) free
split [] after v free = refl
split (x ∷ xs) after v free = ap (λ l. some x ∷ l) (split xs after v free)

pub scan-Found :
    (before after : List ℕ) (v free : ℕ) {m : Mem} {pgdir : ℕ} {pages : List Page}
    → Sweepable m pgdir pages (before ++ v ∷ after)
    → AllBits m pgdir pages true before
    → accessed m pgdir pages v ≡ false
    → scan m pgdir pages [] (slots (before ++ v ∷ after) free)
      ≡ ok (record {
        mem = clear_all m pgdir pages before;
        index = some v;
        temp = map (λ x. some x) before;
        rest = slots after free;
      })
scan-Found before after v free s bits clean = rw (split before after v free) (
    scan-pass before (v ∷ after) [] (slots (v ∷ after) free) s bits
    ∙ (let s' = Sweepable-clear_all before (v ∷ after) s in
        scan-stop s'.tree s'.mapped.0 (map (λ x. some x) before) (slots after free)
          (accessed-clear_all before after v s ∙ clean)))
