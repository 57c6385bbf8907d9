-- ===== src/Paging/Scfifo/Compact.antt =====
-- How `removeSCFIFO` closes the gap: the pages behind the victim move to the front, and those that
-- were given a second chance follow them.
use mathlib.Core.List.{append_assoc, append-nil}
use native.Mathlib.Nat.{suc-add}
use os182_ass.Prelude.{
  length, get_or, set, replicate, length-append, length-replicate, length-map, append-cons, ℕ, zero,
  suc, ◌+◌, ◌-◌, ◌<◌, ◌≡◌, refl, ap, ◌∙◌, none, some, List, [], ◌∷◌, ◌++◌, map, arith,
}
use os182_ass.Paging.{Slot, max_psyc_pages}
use os182_ass.Paging.Queue.{slots}
use os182_ass.Paging.Scfifo.{pull_loop, fill_loop, compact}

abbrev somes : List ℕ → List Slot
somes = map (λ x. some x)

get_or-append : (xs ys : List Slot) → get_or (xs ++ ys) (length xs) none ≡ get_or ys 0 none
get_or-append [] ys = refl
get_or-append (x ∷ xs) ys = get_or-append xs ys

set-append :
    (xs : List Slot) (y v : Slot) (ys : List Slot) → set (xs ++ y ∷ ys) (length xs) v ≡ xs ++ v ∷ ys
set-append [] y v ys = refl
set-append (x ∷ xs) y v ys = ap (λ l. x ∷ l) (set-append xs y v ys)

-- `pull_loop` appends the live slots of the source to what is done; `gap` is what lies between.
record Pulled (done gap : List Slot) (after : List ℕ) (free : ℕ) (out : ℕ × List Slot)
    : Type 0 where
  junk : List Slot
  size : length junk ≡ length gap + free
  new : out.0 ≡ length done + length after
  queue : out.1 ≡ (done ++ somes after) ++ junk

pull_loop-none :
    (n i new : ℕ) (q : List Slot) → get_or q i none ≡ none → pull_loop n i new q ≡ (new, q)
unfolding pull_loop
pull_loop-none zero i new q h = refl
pull_loop-none (suc n) i new q h = rw (h, pull_loop)

pull_loop-some :
    (n i new x : ℕ) (q : List Slot)
    → get_or q i none ≡ some x
    → pull_loop (suc n) i new q ≡ pull_loop n (suc i) (suc new) (set q new (some x))
unfolding pull_loop
pull_loop-some n i new x q h = rw (h, pull_loop)

head-nones : (free : ℕ) → get_or {A = Slot} (replicate free none) 0 none ≡ none
head-nones zero = refl
head-nones (suc free) = refl

-- One step, as lists: the slot after the gap goes to the gap's first place.
pull-regroup :
    (done mid : List Slot) (y x : Slot) (src : List Slot)
    → set ((done ++ y ∷ mid) ++ x ∷ src) (length done) x
      ≡ ((done ++ x ∷ []) ++ (mid ++ x ∷ [])) ++ src
pull-regroup done mid y x src =
    rw (append_assoc, set-append done y x (mid ++ x ∷ src)) (simp append_assoc)

longer : (xs : List Slot) (y : Slot) → length (xs ++ y ∷ []) ≡ suc (length xs)
longer xs y = omega (arith, length-append xs (y ∷ []))

pull-Pulled :
    (after : List ℕ) (n free x : ℕ) (done mid : List Slot) (y : Slot) (i : ℕ)
    → i ≡ length (done ++ y ∷ mid)
    → Pulled (done ++ some x ∷ []) (mid ++ some x ∷ []) after free (
        pull_loop n
          (suc i)
          (length (done ++ some x ∷ []))
          (((done ++ some x ∷ []) ++ (mid ++ some x ∷ [])) ++ slots after free))
    → Pulled done
        (y ∷ mid)
        (x ∷ after)
        free
        (pull_loop (suc n) i (length done) ((done ++ y ∷ mid) ++ slots (x ∷ after) free))
pull-Pulled after n free x done mid y i ei out =
    rw
      (
        pull_loop-some n i (length done) x ((done ++ y ∷ mid) ++ slots (x ∷ after) free)
            (rw (ei, get_or-append (done ++ y ∷ mid) (slots (x ∷ after) free))),
        pull-regroup done mid y (some x) (slots after free),
        ← longer done (some x),
      )
      (record {
        junk = out.junk;
        size = omega (arith, out.size, longer mid (some x));
        new = omega (arith, out.new, longer done (some x));
        queue = out.queue ∙ simp append_assoc;
      })

pull_loop-Pulled :
    (after : List ℕ) (n free : ℕ) (done gap : List Slot) (i : ℕ)
    → n ≡ length after + free
    → 0 < length gap
    → i ≡ length (done ++ gap)
    → Pulled done gap after free (pull_loop n i (length done) ((done ++ gap) ++ slots after free))
pull_loop-Pulled [] n free done gap i en pos ei =
    rw
      (pull_loop-none n i (length done) ((done ++ gap) ++ slots [] free)
        (rw (ei, get_or-append (done ++ gap) (slots [] free)) (head-nones free)))
      (record {
        junk = gap ++ slots [] free;
        size =
            omega (arith, length-append gap (slots [] free), length-replicate {A = Slot} free none);
        new = omega arith;
        queue = simp (append_assoc, append-nil);
      })
pull_loop-Pulled (x ∷ after) zero free done gap i en pos ei = absurd (omega arith)
pull_loop-Pulled (x ∷ after) (suc n) free done [] i en pos ei = absurd (omega arith)
pull_loop-Pulled (x ∷ after) (suc n) free done (y ∷ mid) i en pos ei =
    pull-Pulled after n free x done mid y i ei (
      pull_loop-Pulled after n free (done ++ some x ∷ []) (mid ++ some x ∷ []) (suc i) (omega arith)
        (omega (arith, longer mid (some x)))
        (omega (
          arith,
          length-append (done ++ some x ∷ []) (mid ++ some x ∷ []),
          longer mid (some x),
          longer done (some x),
          length-append done (y ∷ mid),
        )))

window : List Slot → ℕ → ℕ → List Slot
window temp i zero = []
window temp i (suc n) = get_or temp i none ∷ window temp (suc i) n

window-cons :
    (x : Slot) (temp : List Slot) (i n : ℕ) → window (x ∷ temp) (suc i) n ≡ window temp i n
unfolding window
window-cons x temp i zero = refl
window-cons x temp i (suc n) = ap (λ l. get_or temp i none ∷ l) (window-cons x temp (suc i) n)

window-nil : (i n : ℕ) → window [] i n ≡ replicate n none
unfolding window
window-nil i zero = refl
window-nil i (suc n) = ap (λ l. none ∷ l) (window-nil (suc i) n)

window-somes :
    (live : List ℕ) (free : ℕ) → window (somes live) 0 (length live + free) ≡ slots live free
unfolding window
window-somes [] free = window-nil 0 (0 + free) ∙ ap (λ n. replicate n none) (omega arith)
window-somes (x ∷ live) free = rw suc-add (
    ap (λ l. some x ∷ l)
      (window-cons (some x) (somes live) 0 (length live + free) ∙ window-somes live free))

fill_loop-window :
    (n i : ℕ) (temp done junk : List Slot)
    → length junk ≡ n
    → fill_loop n i (length done) temp (done ++ junk) ≡ done ++ window temp i n
unfolding fill_loop window
fill_loop-window zero i temp done [] h = refl
fill_loop-window zero i temp done (y ∷ junk) h = absurd (omega arith)
fill_loop-window (suc n) i temp done [] h = absurd (omega arith)
fill_loop-window (suc n) i temp done (y ∷ junk) h =
    rw
      (
        set-append done y next junk,
        append-cons done next junk,
        ← longer done next,
        append-cons done next (window temp (suc i) n),
      )
      (fill_loop-window n (suc i) temp (done ++ next ∷ []) junk (omega arith))
  where
    next : Slot
    next = get_or temp i none

slots-append :
    (before after : List ℕ) (free : ℕ)
    → somes after ++ slots before free ≡ slots (after ++ before) free
slots-append before [] free = refl
slots-append before (x ∷ after) free = ap (λ l. some x ∷ l) (slots-append before after free)

-- The fill, on what `pull_loop` leaves of a queue of 16 slots.
refill :
    (before after : List ℕ) (gap : List Slot) (free : ℕ) {out : ℕ × List Slot}
    → Pulled [] gap after free out
    → length gap ≡ length before + 1
    → length before + suc (length after + free) ≡ max_psyc_pages
    → fill_loop (max_psyc_pages - out.0) 0 out.0 (somes before) out.1
      ≡ slots (after ++ before) (suc free)
refill before after gap free {out} p g e =
    rw (p.queue, new)
      (fill_loop-window (max_psyc_pages - length (somes after)) 0 (somes before) (somes after)
          p.junk (omega (arith, p.size, length-map (λ (x : ℕ). some x) after))
        ∙ rw left (ap (λ l. somes after ++ l) (window-somes before (suc free)))
        ∙ slots-append before after (suc free))
  where
    new : out.0 ≡ length (somes after)
    new = omega (arith, p.new, length-map (λ (x : ℕ). some x) after)

    left : max_psyc_pages - length (somes after) ≡ length before + suc free
    left = omega (arith, length-map (λ (x : ℕ). some x) after)

split-slots :
    (before after : List ℕ) (v free : ℕ)
    → slots (before ++ v ∷ after) free ≡ (somes before ++ some v ∷ []) ++ slots after free
split-slots [] after v free = refl
split-slots (x ∷ before) after v free = ap (λ l. some x ∷ l) (split-slots before after v free)

-- With the victim `v` behind the items `before`, which `temp` holds, the queue comes to hold the
-- items behind the victim and then those before it.
pub compact_lem :
    (before after : List ℕ) (v free : ℕ)
    → length before + suc (length after + free) ≡ max_psyc_pages
    → compact (length before) (somes before) (slots (before ++ v ∷ after) free)
      ≡ slots (after ++ before) (suc free)
unfolding compact
compact_lem before after v free e = rw (split-slots before after v free) (
    refill before after gap free
      (pull_loop-Pulled after (max_psyc_pages - suc (length before)) free [] gap
        (suc (length before)) (omega arith) (omega (arith, size)) (omega (arith, size)))
      size e)
  where
    gap : List Slot
    gap = somes before ++ some v ∷ []

    size : length gap ≡ length before + 1
    size = omega (arith, longer (somes before) (some v), length-map (λ (x : ℕ). some x) before)
