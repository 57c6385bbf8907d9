-- ===== src/Paging/Scfifo/Choice.antt =====
-- What `removeSCFIFO` returns and leaves, on a queue of mapped pages.
use mathlib.Core.List.{Perm, perm_middle, perm_append_comm, append-nil}
use mathlib.Core.List.Perm
use os182_ass.Prelude.{
  Bool-cases, length, get_or, length-append, length-map, ℕ, suc, ◌+◌, ◌-◌, ◌≡◌, refl, sym, ap, ap₂,
  ◌∙◌, subst, inl, inr, true, false, none, some, List, [], ◌∷◌, ◌++◌, map, arith,
}
use os182_ass.Prelude.Outcome.{ok}
use os182_ass.Memory.{Mem}
use os182_ass.Paging.{Proc, max_psyc_pages, fix_queue}
use os182_ass.Paging.Queue.{slots, Holds, layout-free, Holds-slots, fix_queue-Holds}
use os182_ass.Paging.Scfifo.{scan, compact, retire, remove_scfifo}
use os182_ass.Paging.Scfifo.Sweep.{
  accessed, clear_all, Sweepable, AllBits, AllBits-clear_all, scan-All, scan-Found,
}
use os182_ass.Paging.Scfifo.Compact.{compact_lem}

-- The victim is the first page of the queue whose accessed bit is clear. The pages before it, whose
-- bits are cleared, go behind those after it.
pub remove_scfifo-Found :
    {m : Mem} {p : Proc} (before after : List ℕ) (v : ℕ)
    → Holds p.in_ram_queue (before ++ v ∷ after)
    → Sweepable m p.pgdir p.pages_ds (before ++ v ∷ after)
    → AllBits m p.pgdir p.pages_ds true before
    → accessed m p.pgdir p.pages_ds v ≡ false
    → (p' : Proc) × (remove_scfifo m p ≡ ok (some v, clear_all m p.pgdir p.pages_ds before, p'))
      × (p' ≡ record p { in_ram_queue = p'.in_ram_queue })
      × Holds p'.in_ram_queue (after ++ before)
      × AllBits (clear_all m p.pgdir p.pages_ds before) p.pgdir p.pages_ds false before
unfolding remove_scfifo retire
remove_scfifo-Found {m} {p} before after v h s bits clean = (
  record p { in_ram_queue = slots (after ++ before) (suc free) },
  rw found (
      ap (λ q. ok (some v, clear_all m p.pgdir p.pages_ds before, record p { in_ram_queue = q }))
        closed),
  refl,
  Holds-slots (after ++ before) (suc free)
      (omega (arith, length-append before (v ∷ after), length-append after before, h.room)),
  AllBits-clear_all before (v ∷ after) s,
)
  where
    free : ℕ
    free = max_psyc_pages - length (before ++ v ∷ after)

    len : length (before ++ v ∷ after) + free ≡ max_psyc_pages
    len = omega (arith, h.room)

    found :
        scan m p.pgdir p.pages_ds [] p.in_ram_queue
        ≡ ok (record {
          mem = clear_all m p.pgdir p.pages_ds before;
          index = some v;
          temp = map (λ x. some x) before;
          rest = slots after free;
        })
    found =
        ap (scan m p.pgdir p.pages_ds []) (layout-free h free len)
        ∙ scan-Found before after v free s bits clean

    closed :
        compact (length (map (λ x. some x) before)) (map (λ x. some x) before) p.in_ram_queue
        ≡ slots (after ++ before) (suc free)
    closed =
        ap₂ (λ n q. compact n (map (λ x. some x) before) q) (length-map (λ x. some x) before)
          (layout-free h free len)
        ∙ compact_lem before after v free (omega (arith, length-append before (v ∷ after)))

-- When every page of a full queue was accessed, the victim is the first one, and every accessed bit
-- is cleared.
pub remove_scfifo-All :
    {m : Mem} {p : Proc} (v : ℕ) (after : List ℕ)
    → Holds p.in_ram_queue (v ∷ after)
    → length (v ∷ after) ≡ max_psyc_pages
    → Sweepable m p.pgdir p.pages_ds (v ∷ after)
    → AllBits m p.pgdir p.pages_ds true (v ∷ after)
    → (p' : Proc) × (remove_scfifo m p
        ≡ ok (some v, clear_all m p.pgdir p.pages_ds (v ∷ after), p'))
      × (p' ≡ record p { in_ram_queue = p'.in_ram_queue })
      × Holds p'.in_ram_queue after
      × AllBits (clear_all m p.pgdir p.pages_ds (v ∷ after)) p.pgdir p.pages_ds false (v ∷ after)
unfolding remove_scfifo retire
remove_scfifo-All {m} {p} v after h full s bits = (
  record p { in_ram_queue = fix_queue 0 p.in_ram_queue },
  rw swept (rw (head, retire)),
  refl,
  fix_queue-Holds 0 h (omega arith),
  AllBits-clear_all (v ∷ after) [] (rw append-nil s),
)
  where
    swept :
        scan m p.pgdir p.pages_ds [] p.in_ram_queue
        ≡ ok (record {
          mem = clear_all m p.pgdir p.pages_ds (v ∷ after);
          index = none;
          temp = map (λ x. some x) (v ∷ after);
          rest = [];
        })
    swept =
        ap (scan m p.pgdir p.pages_ds []) (layout-free h 0 (omega arith))
        ∙ scan-All (v ∷ after) s bits

    head : get_or p.in_ram_queue 0 none ≡ some v
    head = ap (λ q. get_or q 0 none) (layout-free h 0 (omega arith))

-- The pages of a queue up to the first whose bit is clear, if there is one.
data Search (m : Mem) (p : Proc) (live : List ℕ) : Type 0 where
  all : AllBits m p.pgdir p.pages_ds true live → Search m p live
  first :
      (before after : List ℕ) (v : ℕ)
      → live ≡ before ++ v ∷ after
      → AllBits m p.pgdir p.pages_ds true before
      → accessed m p.pgdir p.pages_ds v ≡ false
      → Search m p live

Search-cons :
    (m : Mem) (p : Proc) (x : ℕ) (live : List ℕ)
    → accessed m p.pgdir p.pages_ds x ≡ true
    → Search m p live
    → Search m p (x ∷ live)
Search-cons m p x live h (all bits) = all (h, bits)
Search-cons m p x live h (first before after v e bits clean) =
    first (x ∷ before) after v (ap (λ l. x ∷ l) e) (h, bits) clean

Search-bits : (m : Mem) (p : Proc) (live : List ℕ) → Search m p live
Search-bits m p [] = all tt
Search-bits m p (x ∷ live) = elim (Bool-cases (accessed m p.pgdir p.pages_ds x)) [
  | inl h ↦ Search-cons m p x live h (Search-bits m p live)
  | inr h ↦ first [] live x refl tt h
]

-- What a call of `removeSCFIFO` comes to: a victim, with the other pages of the queue kept.
pub record Evicts (m : Mem) (p : Proc) (live : List ℕ) : Type 0 where
  pub victim : ℕ
  pub kept : List ℕ
  pub mem' : Mem
  pub proc' : Proc
  pub runs : remove_scfifo m p ≡ ok (some victim, mem', proc')
  pub holds : Holds proc'.in_ram_queue kept
  pub same : Perm live (victim ∷ kept)
  pub others : proc' ≡ record p { in_ram_queue = proc'.in_ram_queue }

-- On a full queue of mapped pages `removeSCFIFO` always returns a page of the queue, and the queue
-- keeps the other 15.
pub remove_scfifo-Evicts :
    {m : Mem} {p : Proc} (live : List ℕ)
    → Holds p.in_ram_queue live
    → length live ≡ max_psyc_pages
    → Sweepable m p.pgdir p.pages_ds live
    → Evicts m p live
remove_scfifo-Evicts {m} {p} [] h full s = absurd (omega arith)
remove_scfifo-Evicts {m} {p} (x ∷ live) h full s = go (Search-bits m p (x ∷ live))
  where
    go : Search m p (x ∷ live) → Evicts m p (x ∷ live)
    go (all bits) =
        let (p', runs, others, holds, cleared) = remove_scfifo-All x live h full s bits in
        record {
          victim = x;
          kept = live;
          mem' = _;
          proc' = p';
          runs = runs;
          holds = holds;
          same = Perm.refl (x ∷ live);
          others = others;
        }
    go (first before after v e bits clean) =
        let (p', runs, others, holds, cleared) =
          remove_scfifo-Found before after v (subst (Holds p.in_ram_queue) e h)
            (subst (Sweepable m p.pgdir p.pages_ds) e s) bits clean in
        record {
          victim = v;
          kept = after ++ before;
          mem' = _;
          proc' = p';
          runs = runs;
          holds = holds;
          same =
              subst (λ l. Perm l (v ∷ after ++ before)) (sym e)
                (Perm.trans (perm_middle before after)
                  (Perm.cons v (perm_append_comm before after)));
          others = others;
        }
