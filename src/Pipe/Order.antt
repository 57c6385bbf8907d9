-- ===== src/Pipe/Order.antt =====
-- The calls of several writers and readers of a pipe, in any order: what they read is what they
-- wrote, in its order.
use mathlib.Core.List.{append-nil, append_assoc}
use os182_ass.Prelude.{
  ◌==◌, if◌then◌else◌, Bool-cases, length, take, drop, length-append, take-first, take-drop, ℕ,
  zero, suc, ◌+◌, ◌-◌, ◌%◌, ◌^◌, ◌<◌, ◌≡◌, refl, sym, ap, ap₂, ◌∙◌, subst, ◌≢◌, ◌⊎◌, inl, inr, Bool,
  false, not, ◌||◌, List, [], ◌∷◌, ◌++◌, arith, dec_lt, ℕ_discrete,
}
use os182_ass.Pipe.{
  pipesize, Pipe, opened, pipeclose, WriteStop, wrote, write_failed, write_sleeps, pipewrite, got,
  read_failed, read_sleeps, piperead,
}
use os182_ass.Pipe.Ring.{Holds}
use os182_ass.Pipe.Calls.{
  opened-Holds, stopped, pipewrite-fits, pipewrite-overflows, piperead-takes, piperead-waits,
}

abbrev pub left_by : WriteStop → Pipe
left_by (wrote p) = p
left_by (write_failed p) = p
left_by (write_sleeps bs p) = p

-- The pipe, all bytes that went into it and all that were read from it.
pub record System : Type 0 where
  pub pipe : Pipe
  pub sent : List ℕ
  pub received : List ℕ

-- By how much the counter of written bytes went up.
abbrev pub advanced : Pipe → Pipe → ℕ
advanced p p' = (p'.nwrite + 2 ^ 32 - p.nwrite) % 2 ^ 32

-- A call runs until it stops. A writer that returns has sent all its bytes. One that sleeps has sent
-- those before the ones that it has left, with which it goes on as a further call. One that fails does
-- not say how many it has sent; the counter does.
pub data Step (s : System) : System → Type 0 where
  write :
      (killed : Bool) (bs : List ℕ) {p : Pipe}
      → pipewrite killed bs s.pipe ≡ wrote p
      → Step s (record s { pipe = p; sent = s.sent ++ bs })
  write_part :
      (killed : Bool) (first left : List ℕ) {p : Pipe}
      → pipewrite killed (first ++ left) s.pipe ≡ write_sleeps left p
      → Step s (record s { pipe = p; sent = s.sent ++ first })
  write_broken :
      (killed : Bool) (bs : List ℕ) {p : Pipe}
      → pipewrite killed bs s.pipe ≡ write_failed p
      → Step s (record s { pipe = p; sent = s.sent ++ take (advanced s.pipe p) bs })
  read :
      (killed : Bool) (n : ℕ) (bs : List ℕ) {p : Pipe}
      → piperead killed n s.pipe ≡ got bs p
      → Step s (record s { pipe = p; received = s.received ++ bs })
  close :
      (writable : ℕ) {p : Pipe}
      → pipeclose writable s.pipe ≡ (false, p)
      → Step s (record s { pipe = p })

abbrev pub initial : List ℕ → System
initial bytes = record { pipe = opened bytes; sent = []; received = [] }

pub data Reach (bytes : List ℕ) : System → Type 0 where
  here : Reach bytes (initial bytes)
  next : {s t : System} → Reach bytes s → Step s t → Reach bytes t

-- What went in is what came out, and then what is in the pipe.
pub record IsFifo (s : System) : Type 0 where
  pub waiting : List ℕ
  pub holds : Holds s.pipe waiting
  pub in_order : s.sent ≡ s.received ++ waiting
  pub goes_on :
      (killed : Bool) (bs left : List ℕ) (p : Pipe)
      → pipewrite killed bs s.pipe ≡ write_sleeps left p
      → (first : List ℕ) × (bs ≡ first ++ left)

split_at :
    (k : ℕ) (bs : List ℕ)
    → k < length bs
    → (first : List ℕ) × (b : ℕ) × (others : List ℕ) × (bs ≡ first ++ b ∷ others)
      × (length first ≡ k)
split_at k [] lt = absurd (omega arith)
split_at zero (b ∷ bs) lt = ([], b, bs, refl, refl)
split_at (suc k) (a ∷ bs) lt =
    let (first, b, others, e, len) = split_at k bs (omega arith) in
    (a ∷ first, b, others, ap (λ l. a ∷ l) e, ap suc len)

stopped-left_by : (killed : Bool) (bs : List ℕ) (p : Pipe) → left_by (stopped killed bs p) ≡ p
stopped-left_by killed bs p = ground arith

stopped-wrote : (killed : Bool) (bs : List ℕ) (p q : Pipe) → stopped killed bs p ≢ wrote q
stopped-wrote killed bs p q e = elim (Bool-cases ((p.readopen == 0) || killed)) [
  | inl c ↦ let h : write_failed p ≡ wrote q = ground (arith, c, e) in cc
  | inr c ↦ let h : write_sleeps bs p ≡ wrote q = ground (arith, c, e) in cc
]

stopped-sleeps :
    (killed : Bool) (bs left : List ℕ) (p q : Pipe)
    → stopped killed bs p ≡ write_sleeps left q
    → left ≡ bs
stopped-sleeps killed bs left p q e = elim (Bool-cases ((p.readopen == 0) || killed)) [
  | inl c ↦ let h : write_failed p ≡ write_sleeps left q = ground (arith, c, e) in absurd cc
  | inr c ↦ let h : write_sleeps bs p ≡ write_sleeps left q = ground (arith, c, e) in cc
]

-- However a `pipewrite` stops, some of its first bytes went in: all, when it returns, and all but those
-- left, when it sleeps.
record WentIn (killed : Bool) (bs : List ℕ) (p : Pipe) (xs : List ℕ) : Type 0 where
  first : List ℕ
  others : List ℕ
  split : bs ≡ first ++ others
  held : Holds (left_by (pipewrite killed bs p)) (xs ++ first)
  same_reader : (left_by (pipewrite killed bs p)).nread ≡ p.nread
  whole : (q : Pipe) → pipewrite killed bs p ≡ wrote q → first ≡ bs
  rest : (left : List ℕ) (q : Pipe) → pipewrite killed bs p ≡ write_sleeps left q → left ≡ others

pipewrite-first :
    (killed : Bool) (bs : List ℕ) {p : Pipe} (xs : List ℕ) → Holds p xs → WentIn killed bs p xs
pipewrite-first killed bs {p} xs h = elim (dec_lt pipesize (length xs + length bs)) [
  | no few ↦
      let (p', runs, held, same) = pipewrite-fits killed bs xs h (omega arith) in
      record {
        first = bs;
        others = [];
        split = sym (append-nil bs);
        held = rw runs held;
        same_reader = rw runs (ap (λ (q : Pipe). q.nread) same);
        whole = λ q e. refl;
        rest = λ left q e. absurd (let both : wrote p' ≡ write_sleeps left q = sym runs ∙ e in cc);
      }
  | yes many ↦
      let (first, b, others, e, len) = split_at (pipesize - length xs) bs (omega (arith, h.room)) in
      let (p', runs, held, same) =
        pipewrite-overflows killed first b others xs h (omega (arith, len, h.room)) in
      let stops : pipewrite killed bs p ≡ stopped killed (b ∷ others) p' =
        ap (λ l. pipewrite killed l p) e ∙ runs in
      let at : left_by (pipewrite killed bs p) ≡ p' =
        ap left_by stops ∙ stopped-left_by killed (b ∷ others) p' in
      record {
        first = first;
        others = b ∷ others;
        split = e;
        held = rw at held;
        same_reader = rw at (ap (λ (q : Pipe). q.nread) same);
        whole = λ q w. absurd (stopped-wrote killed (b ∷ others) p' q (sym stops ∙ w));
        rest = λ left q w. stopped-sleeps killed (b ∷ others) left p' q (sym stops ∙ w);
      }
]

-- A sleeping writer goes on with the last of its bytes.
sleeps-rest :
    {p : Pipe} (xs : List ℕ)
    → Holds p xs
    → (killed : Bool) (bs left : List ℕ) (q : Pipe) → pipewrite killed bs p ≡ write_sleeps left q
    → (first : List ℕ) × (bs ≡ first ++ left)
sleeps-rest {p} xs h killed bs left q e =
    let w = pipewrite-first killed bs xs h in
    (w.first, w.split ∙ ap (λ l. w.first ++ l) (sym (w.rest left q e)))

advanced-length :
    {p p' : Pipe} (xs first : List ℕ)
    → Holds p xs
    → Holds p' (xs ++ first)
    → p'.nread ≡ p.nread
    → advanced p p' ≡ length first
advanced-length xs first h h' same =
    omega (arith, same, h.counted, h.word, h.room, h'.counted, h'.room, length-append xs first)

-- The bytes `first` of a call went in.
sent-IsFifo :
    {s : System} {p : Pipe} (first : List ℕ)
    → (v : IsFifo s) → Holds p (v.waiting ++ first)
    → IsFifo (record s { pipe = p; sent = s.sent ++ first })
sent-IsFifo {s} first v held = record {
  waiting = v.waiting ++ first;
  holds = held;
  in_order = ap (λ l. l ++ first) v.in_order ∙ append_assoc s.received v.waiting first;
  goes_on = sleeps-rest (v.waiting ++ first) held;
}

append-left-inj : (xs ys zs : List ℕ) → xs ++ zs ≡ ys ++ zs → xs ≡ ys
append-left-inj xs ys zs e =
    sym (take-first xs zs) ∙ ap₂ take (same_length xs ys zs e) e ∙ take-first ys zs
  where
    same_length : (xs ys zs : List ℕ) → xs ++ zs ≡ ys ++ zs → length xs ≡ length ys
    same_length xs ys zs e =
        omega (arith, ap (length {A = ℕ}) e, length-append xs zs, length-append ys zs)

write-IsFifo :
    {s : System} (killed : Bool) (bs : List ℕ) {p : Pipe}
    → pipewrite killed bs s.pipe ≡ wrote p
    → IsFifo s
    → IsFifo (record s { pipe = p; sent = s.sent ++ bs })
write-IsFifo {s} killed bs {p} e v =
    let w = pipewrite-first killed bs v.waiting v.holds in
    sent-IsFifo bs v (
      subst (λ l. Holds p (v.waiting ++ l)) (w.whole p e)
        (subst (λ q. Holds q (v.waiting ++ w.first)) (ap left_by e) w.held))

write_part-IsFifo :
    {s : System} (killed : Bool) (first left : List ℕ) {p : Pipe}
    → pipewrite killed (first ++ left) s.pipe ≡ write_sleeps left p
    → IsFifo s
    → IsFifo (record s { pipe = p; sent = s.sent ++ first })
write_part-IsFifo {s} killed first left {p} e v =
    let w = pipewrite-first killed (first ++ left) v.waiting v.holds in
    let same : w.first ≡ first =
      append-left-inj w.first first left (ap (λ l. w.first ++ l) (w.rest left p e) ∙ sym w.split) in
    sent-IsFifo first v (
      subst (λ l. Holds p (v.waiting ++ l)) same
        (subst (λ q. Holds q (v.waiting ++ w.first)) (ap left_by e) w.held))

write_broken-IsFifo :
    {s : System} (killed : Bool) (bs : List ℕ) {p : Pipe}
    → pipewrite killed bs s.pipe ≡ write_failed p
    → IsFifo s
    → IsFifo (record s { pipe = p; sent = s.sent ++ take (advanced s.pipe p) bs })
write_broken-IsFifo {s} killed bs {p} e v =
    let w = pipewrite-first killed bs v.waiting v.holds in
    let at : left_by (pipewrite killed bs s.pipe) ≡ p = ap left_by e in
    let held = subst (λ q. Holds q (v.waiting ++ w.first)) at w.held in
    let count : advanced s.pipe p ≡ length w.first =
      advanced-length v.waiting w.first v.holds held
        (ap (λ (q : Pipe). q.nread) (sym at) ∙ w.same_reader) in
    let in_first : take (advanced s.pipe p) bs ≡ w.first =
      ap₂ take count w.split ∙ take-first w.first w.others in
    sent-IsFifo (take (advanced s.pipe p) bs) v
      (subst (λ l. Holds p (v.waiting ++ l)) (sym in_first) held)

read-IsFifo :
    {s : System} (killed : Bool) (n : ℕ) (bs : List ℕ) {p : Pipe}
    → piperead killed n s.pipe ≡ got bs p
    → IsFifo s
    → IsFifo (record s { pipe = p; received = s.received ++ bs })
read-IsFifo {s} killed n bs {p} e v = elim (pipe_ready v.waiting) [
  | inl ready ↦
      let (p', runs, held) = piperead-takes killed n v.waiting v.holds ready in
      let same : got (take n v.waiting) p' ≡ got bs p = sym runs ∙ e in
      let bytes : take n v.waiting ≡ bs = cc in
      let left : p' ≡ p = cc in
      record {
        waiting = drop n v.waiting;
        holds = subst (λ q. Holds q (drop n v.waiting)) left held;
        in_order =
            v.in_order
            ∙ ap (λ l. s.received ++ l) (sym (take-drop n v.waiting))
            ∙ sym (append_assoc s.received (take n v.waiting) (drop n v.waiting))
            ∙ ap (λ l. (s.received ++ l) ++ drop n v.waiting) bytes;
        goes_on =
            sleeps-rest (drop n v.waiting) (subst (λ q. Holds q (drop n v.waiting)) left held);
      }
  | inr (empty, writer) ↦
      absurd
        (not_got (sym (piperead-waits killed n (subst (Holds s.pipe) empty v.holds) writer) ∙ e))
]
  where
    pipe_ready :
        (xs : List ℕ)
        → ((0 < length xs) ⊎ (s.pipe.writeopen ≡ 0)) ⊎ ((xs ≡ []) × (s.pipe.writeopen ≢ 0))
    pipe_ready (x ∷ xs) = inl (inl (omega arith))
    pipe_ready [] = elim (ℕ_discrete s.pipe.writeopen 0) [
      | yes shut ↦ inl (inr shut)
      | no writer ↦ inr (refl, writer)
    ]

    not_got : (if killed then read_failed s.pipe else read_sleeps s.pipe) ≢ got bs p
    not_got h = elim (Bool-cases killed) [
      | inl k ↦ let h' : read_failed s.pipe ≡ got bs p = ground (arith, k, h) in cc
      | inr k ↦ let h' : read_sleeps s.pipe ≡ got bs p = ground (arith, k, h) in cc
    ]

pipeclose-Holds :
    (writable : ℕ) {p : Pipe} (xs : List ℕ) → Holds p xs → Holds (pipeclose writable p).1 xs
unfolding pipeclose
pipeclose-Holds writable {p} xs h = elim (Bool-cases (not (writable == 0))) [
  | inl w ↦ rw w (record {
    size = h.size;
    word = h.word;
    room = h.room;
    counted = h.counted;
    stored = h.stored;
  })
  | inr w ↦ rw w (record {
    size = h.size;
    word = h.word;
    room = h.room;
    counted = h.counted;
    stored = h.stored;
  })
]

close-IsFifo :
    {s : System} (writable : ℕ) {p : Pipe}
    → pipeclose writable s.pipe ≡ (false, p)
    → IsFifo s
    → IsFifo (record s { pipe = p })
close-IsFifo {s} writable e v = record {
  waiting = v.waiting;
  holds =
      subst (λ q. Holds q v.waiting) (ap (λ (r : Bool × Pipe). r.1) e)
        (pipeclose-Holds writable v.waiting v.holds);
  in_order = v.in_order;
  goes_on = sleeps-rest v.waiting (
      subst (λ q. Holds q v.waiting) (ap (λ (r : Bool × Pipe). r.1) e)
        (pipeclose-Holds writable v.waiting v.holds));
}

Step-IsFifo : {s t : System} → Step s t → IsFifo s → IsFifo t
Step-IsFifo (write killed bs e) v = write-IsFifo killed bs e v
Step-IsFifo (write_part killed first left e) v = write_part-IsFifo killed first left e v
Step-IsFifo (write_broken killed bs e) v = write_broken-IsFifo killed bs e v
Step-IsFifo (read killed n bs e) v = read-IsFifo killed n bs e v
Step-IsFifo (close writable e) v = close-IsFifo writable e v

-- However writes, reads and closes follow each other, the bytes that were read and then the bytes
-- in the pipe are the bytes that were written, in their order; and a `pipewrite` that sleeps has left
-- to write the last of its bytes.
pub Reach-IsFifo :
    {bytes : List ℕ} {s : System} → length bytes ≡ pipesize → Reach bytes s → IsFifo s
Reach-IsFifo {bytes} e here = record {
  waiting = [];
  holds = opened-Holds bytes e;
  in_order = refl;
  goes_on = sleeps-rest [] (opened-Holds bytes e);
}
Reach-IsFifo e (next r st) = Step-IsFifo st (Reach-IsFifo e r)

stopped-left :
    (killed : Bool) (bs left : List ℕ) (p p' : Pipe)
    → stopped killed bs p ≡ write_sleeps left p'
    → p ≡ p'
stopped-left killed bs left p p' e = ap left_by e' ∙ ap left_by e
  where
    e' : write_sleeps bs p ≡ stopped killed bs p
    e' = elim (Bool-cases ((p.readopen == 0) || killed)) [
      | inl c ↦ let h : write_failed p ≡ write_sleeps left p' = ground (arith, c, e) in cc
      | inr c ↦ rw c refl
    ]

take-some :
    (n : ℕ) (xs : List ℕ) → 0 < n → 0 < length xs → (b : ℕ) × (bs : List ℕ) × (take n xs ≡ b ∷ bs)
take-some zero xs pos some_left = absurd (omega arith)
take-some (suc n) [] pos some_left = absurd (omega arith)
take-some (suc n) (x ∷ xs) pos some_left = (x, take n xs, refl)

-- When a `pipewrite` sleeps, it leaves bytes for a reader: a `piperead` of at least one byte, run on
-- that pipe, returns at least one.
pub piperead-after_sleep :
    (killed killed' : Bool) (bs left : List ℕ) (n : ℕ) {p p' : Pipe} (xs : List ℕ)
    → Holds p xs
    → pipewrite killed bs p ≡ write_sleeps left p'
    → 0 < n
    → (b : ℕ) × (others : List ℕ) × (p'' : Pipe) × (piperead killed' n p' ≡ got (b ∷ others) p'')
piperead-after_sleep killed killed' bs left n {p} {p'} xs h sleeps pos =
    elim (dec_lt pipesize (length xs + length bs)) [
      | no few ↦
          let (q, runs, held, same) = pipewrite-fits killed bs xs h (omega arith) in
          absurd (let both : wrote q ≡ write_sleeps left p' = sym runs ∙ sleeps in cc)
      | yes many ↦
          let (first, b, others, e, len) =
            split_at (pipesize - length xs) bs (omega (arith, h.room)) in
          let (q, runs, held, same) =
            pipewrite-overflows killed first b others xs h (omega (arith, len, h.room)) in
          let here : q ≡ p' =
            stopped-left killed (b ∷ others) left q p'
              (sym runs ∙ ap (λ l. pipewrite killed l p) (sym e) ∙ sleeps) in
          let full : 0 < length (xs ++ first) =
            omega (arith, length-append xs first, len, h.room) in
          let (p'', reads, after) =
            piperead-takes killed' n (xs ++ first) (subst (λ r. Holds r (xs ++ first)) here held)
              (inl full) in
          let (c, cs, nonempty) = take-some n (xs ++ first) pos full in
          (c, cs, p'', reads ∙ ap (λ l. got l p'') nonempty)
    ]
