-- ===== src/Pipe/Calls.antt =====
-- `pipewrite` and `piperead` up to where they return or sleep.
use mathlib.Core.List.{append-nil}
use os182_ass.Prelude.{
  ◌==◌, if◌then◌else◌, Bool-cases, length, take, drop, length-append, append-cons, ℕ, zero, suc,
  ◌+◌, ◌%◌, ◌^◌, ◌≤◌, ◌<◌, ◌≡◌, refl, sym, ◌∙◌, subst, ◌≢◌, ◌⊎◌, inl, inr, Bool, true, false, not,
  ◌&&◌, ◌||◌, List, [], ◌∷◌, ◌++◌, arith,
}
use os182_ass.Pipe.{
  pipesize, Pipe, opened, pipeclose, put_byte, WriteStop, wrote, write_failed, write_sleeps,
  pipewrite, read_loop, got, read_failed, read_sleeps, piperead,
}
use os182_ass.Pipe.Ring.{Holds, empty_iff, full_iff, put_byte-Holds, take_byte-Holds}

-- A pipe that `pipealloc` makes is empty.
pub opened-Holds : (bytes : List ℕ) → length bytes ≡ pipesize → Holds (opened bytes) []
opened-Holds bytes e = record {
  size = e;
  word = omega arith;
  room = omega arith;
  counted = refl;
  stored = tt;
}

-- With a full pipe and bytes left, `pipewrite` fails if there is no reader or the process was
-- killed, and sleeps otherwise.
abbrev pub stopped : Bool → List ℕ → Pipe → WriteStop
stopped killed left p = if (p.readopen == 0) || killed then write_failed p else write_sleeps left p

pipewrite-next :
    (killed : Bool) (b : ℕ) (bs : List ℕ) {p : Pipe} (xs : List ℕ)
    → Holds p xs
    → length xs < pipesize
    → pipewrite killed (b ∷ bs) p ≡ pipewrite killed bs (put_byte b p)
unfolding pipewrite
pipewrite-next killed b bs xs h lt = ground (arith, full_iff xs h)

pipewrite-full :
    (killed : Bool) (b : ℕ) (bs : List ℕ) {p : Pipe} (xs : List ℕ)
    → Holds p xs
    → length xs ≡ pipesize
    → pipewrite killed (b ∷ bs) p ≡ stopped killed (b ∷ bs) p
unfolding pipewrite
pipewrite-full killed b bs {p} xs h full =
    let yes_full : (p.nwrite == (p.nread + pipesize) % 2 ^ 32) ≡ true =
      ground (arith, full_iff xs h) in
    rw yes_full refl

-- `pipewrite` of bytes for which the pipe has room puts them behind those in the pipe, and
-- returns; the rest of the pipe stays as it is.
pub pipewrite-fits :
    (killed : Bool) (bs : List ℕ) {p : Pipe} (xs : List ℕ)
    → Holds p xs
    → length xs + length bs ≤ pipesize
    → (p' : Pipe) × (pipewrite killed bs p ≡ wrote p')
      × Holds p' (xs ++ bs)
      × (p' ≡ record p { bytes = p'.bytes; nwrite = p'.nwrite })
unfolding put_byte pipewrite
pipewrite-fits killed [] {p} xs h room = (p, refl, subst (Holds p) (sym (append-nil xs)) h, refl)
pipewrite-fits killed (b ∷ bs) {p} xs h room =
    let (p', runs, held, same) =
      pipewrite-fits killed bs (xs ++ b ∷ []) (put_byte-Holds b xs h (omega arith))
        (omega (arith, length-append xs (b ∷ []))) in
    (
      p',
      pipewrite-next killed b bs xs h (omega arith) ∙ runs,
      subst (Holds p') (sym (append-cons xs b bs)) held,
      same ∙ refl,
    )

-- `pipewrite` of more bytes than the pipe has room for fills the pipe with the first of them. Then
-- it returns -1, if the reading end is closed or the process was killed, and otherwise sleeps with
-- the others left to write. The rest of the pipe stays as it is.
pub pipewrite-overflows :
    (killed : Bool) (first : List ℕ) (b : ℕ) (others : List ℕ) {p : Pipe} (xs : List ℕ)
    → Holds p xs
    → length xs + length first ≡ pipesize
    → (p' : Pipe) × (pipewrite killed (first ++ b ∷ others) p ≡ stopped killed (b ∷ others) p')
      × Holds p' (xs ++ first)
      × (p' ≡ record p { bytes = p'.bytes; nwrite = p'.nwrite })
unfolding put_byte
pipewrite-overflows killed [] b others {p} xs h room = (
  p,
  pipewrite-full killed b others xs h (omega arith),
  subst (Holds p) (sym (append-nil xs)) h,
  refl,
)
pipewrite-overflows killed (a ∷ first) b others {p} xs h room =
    let (p', runs, held, same) =
      pipewrite-overflows killed first b others (xs ++ a ∷ []) (put_byte-Holds a xs h (omega arith))
        (omega (arith, length-append xs (a ∷ []))) in
    (
      p',
      pipewrite-next killed a (first ++ b ∷ others) xs h (omega arith) ∙ runs,
      subst (Holds p') (sym (append-cons xs a first)) held,
      same ∙ refl,
    )

read_loop-Holds :
    (n : ℕ) {p : Pipe} (xs : List ℕ)
    → Holds p xs
    → (p' : Pipe) × (read_loop n p ≡ (take n xs, p')) × Holds p' (drop n xs)
unfolding read_loop
read_loop-Holds zero {p} xs h = (p, refl, h)
read_loop-Holds (suc n) {p} [] h = (p, rw (empty_iff [] h) refl, h)
read_loop-Holds (suc n) {p} (x ∷ xs) h =
    let (q, takes, same, held) = take_byte-Holds x xs h in
    let (p', runs, held') = read_loop-Holds n xs held in
    let more : (p.nread == p.nwrite) ≡ false = ground (arith, empty_iff (x ∷ xs) h) in
    (p', rw (takes, more, runs) refl, held')

-- `piperead` on a pipe that is not empty, or whose writing end is closed, returns the oldest bytes,
-- as many as there are up to `n`, and takes them from the pipe.
pub piperead-takes :
    (killed : Bool) (n : ℕ) {p : Pipe} (xs : List ℕ)
    → Holds p xs
    → (0 < length xs) ⊎ (p.writeopen ≡ 0)
    → (p' : Pipe) × (piperead killed n p ≡ got (take n xs) p') × Holds p' (drop n xs)
unfolding piperead
piperead-takes killed n {p} xs h ready =
    let (p', runs, held) = read_loop-Holds n xs h in
    let go : ((p.nread == p.nwrite) && not (p.writeopen == 0)) ≡ false =
      ground (arith, empty_iff xs h) in
    (p', rw (go, runs) refl, held)

-- On an empty pipe with a writing end `piperead` sleeps, or returns -1 if the process was killed.
pub piperead-waits :
    (killed : Bool) (n : ℕ) {p : Pipe}
    → Holds p []
    → p.writeopen ≢ 0
    → piperead killed n p ≡ (if killed then read_failed p else read_sleeps p)
unfolding piperead
piperead-waits killed n {p} h writer = ground (arith, empty_iff [] h)

-- Of the two ends of a pipe, closing the first keeps the page, and closing the other frees it.
pub pipeclose-frees :
    (first second : ℕ) (p : Pipe)
    → p.readopen ≢ 0
    → p.writeopen ≢ 0
    → (first == 0) ≢ (second == 0)
    → (p' p'' : Pipe) × (pipeclose first p ≡ (false, p')) × (pipeclose second p' ≡ (true, p''))
unfolding pipeclose
pipeclose-frees first second p reader writer other = elim (Bool-cases (first == 0)) [
  | inl f ↦
      let g : (second == 0) ≡ false = ground (arith, f, other) in
      (
        record p { readopen = 0 },
        record p { readopen = 0; writeopen = 0 },
        rw f (ground (arith, writer)),
        rw g refl,
      )
  | inr f ↦
      let g : (second == 0) ≡ true = ground (arith, f, other) in
      (
        record p { writeopen = 0 },
        record p { readopen = 0; writeopen = 0 },
        rw f (ground (arith, reader)),
        rw g refl,
      )
]
