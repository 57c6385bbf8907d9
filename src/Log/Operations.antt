-- ===== src/Log/Operations.antt =====
-- The operations of several processes on the log, as steps, and what they keep.
use os182_ass.Prelude.{
  ◌==◌, if◌then◌else◌, Bool-cases, length, All, ℕ, suc, ◌+◌, ◌-◌, ◌*◌, ◌≤◌, ◌<◌, ◌≡◌, refl, inl,
  inr, Bool, true, false, ◌||◌, some, List, [], ◌∷◌, ◌++◌, arith, ℕ_discrete,
}
use os182_ass.Prelude.Outcome.{ok}
use os182_ass.Log.{logsize, maxopblocks, LogState, absorb, log_write, begin_op, end_op, end_commit}

abbrev pub mem : ℕ → List ℕ → Bool
mem b [] = false
mem b (x ∷ xs) = (x == b) || mem b xs

-- The log, and for each operation in progress the blocks that it has written.
pub record System : Type 0 where
  pub log : LogState
  pub written : List (List ℕ)

-- How many blocks the operations may still write.
abbrev pub unused : List (List ℕ) → ℕ
unused [] = 0
unused (w ∷ ws) = (maxopblocks - length w) + unused ws

-- One step of some process. An operation writes at most `MAXOPBLOCKS` different blocks, each as often
-- as it likes.
pub data Step (s : System) : System → Type 0 where
  start :
      {l : LogState}
      → begin_op s.log ≡ some l
      → Step s (record { log = l; written = [] ∷ s.written })
  put :
      (b : ℕ) (front : List (List ℕ)) (w : List ℕ) (back : List (List ℕ)) {l : LogState}
      → s.written ≡ front ++ w ∷ back
      → length (absorb b w) ≤ maxopblocks
      → log_write b s.log ≡ ok l
      → Step s (record { log = l; written = front ++ absorb b w ∷ back })
  stop :
      (front : List (List ℕ)) (w : List ℕ) (back : List (List ℕ)) (commits : Bool) {l : LogState}
      → s.written ≡ front ++ w ∷ back
      → end_op s.log ≡ ok (commits, l)
      → Step s (record { log = l; written = front ++ back })
  finish : s.log.committing ≡ 1 → Step s (record { log = end_commit s.log; written = s.written })

-- `initlog` leaves an empty log.
abbrev pub initial : ℕ → System
initial size = record {
  log = record { size = size; outstanding = 0; committing = 0; blocks = [] };
  written = [];
}

pub data Reach (size : ℕ) : System → Type 0 where
  here : Reach size (initial size)
  next : {s t : System} → Reach size s → Step s t → Reach size t

-- The blocks of an operation are in the log, and not more than it may write.
pub record IsLogged (blocks w : List ℕ) : Type 0 where
  pub few : length w ≤ maxopblocks
  pub in_log : (b : ℕ) → mem b w ≡ true → mem b blocks ≡ true

pub record IsValid (size : ℕ) (s : System) : Type 0 where
  pub same_size : s.log.size ≡ size
  pub counted : s.log.outstanding ≡ length s.written
  pub reserved : length s.log.blocks + unused s.written ≤ logsize
  pub logged : All (IsLogged s.log.blocks) s.written
  pub one_commit : s.log.committing ≤ 1
  pub quiet : s.log.committing ≡ 1 → s.written ≡ []

pub length-absorb :
    (b : ℕ) (xs : List ℕ) → length (absorb b xs) ≡ (if mem b xs then length xs else suc (length xs))
unfolding absorb
length-absorb b [] = refl
length-absorb b (x ∷ xs) = ground (arith, length-absorb b xs)

pub mem-absorb : (b c : ℕ) (xs : List ℕ) → mem c (absorb b xs) ≡ ((b == c) || mem c xs)
unfolding absorb
mem-absorb b c [] = refl
mem-absorb b c (x ∷ xs) = ground (arith, mem-absorb b c xs)

pub unused-append : (xs ys : List (List ℕ)) → unused (xs ++ ys) ≡ unused xs + unused ys
unused-append [] ys = omega arith
unused-append (x ∷ xs) ys = omega (arith, unused-append xs ys)

pub unused-le : (xs : List (List ℕ)) → unused xs ≤ length xs * maxopblocks
unused-le [] = omega arith
unused-le (x ∷ xs) = omega (arith, unused-le xs)

pub All-append :
    {A : Type 0} (P : A → Type 0) (xs ys : List A) → All P xs → All P ys → All P (xs ++ ys)
All-append P [] ys left right = right
All-append P (x ∷ xs) ys left right = (left.0, All-append P xs ys left.1 right)

pub All-parts :
    {A : Type 0} (P : A → Type 0) (xs ys : List A) → All P (xs ++ ys) → All P xs × All P ys
All-parts P [] ys h = (tt, h)
All-parts P (x ∷ xs) ys h = let (a, b) = All-parts P xs ys h.1 in ((h.0, a), b)

pub All-imp :
    {A : Type 0} (P Q : A → Type 0) (xs : List A) → ((x : A) → P x → Q x) → All P xs → All Q xs
All-imp P Q [] f h = tt
All-imp P Q (x ∷ xs) f h = (f x h.0, All-imp P Q xs f h.1)

-- A write keeps the blocks of every operation in the log.
pub IsLogged-absorb : (b : ℕ) (blocks w : List ℕ) → IsLogged blocks w → IsLogged (absorb b blocks) w
IsLogged-absorb b blocks w l = record {
  few = l.few;
  in_log = λ c h. let there = l.in_log c h in ground (arith, mem-absorb b c blocks, there);
}

pub IsLogged-written :
    (b : ℕ) (blocks w : List ℕ)
    → length (absorb b w) ≤ maxopblocks
    → IsLogged blocks w
    → IsLogged (absorb b blocks) (absorb b w)
IsLogged-written b blocks w few l = record {
  few = few;
  in_log = λ c h. elim (ℕ_discrete b c) [
    | yes same ↦ ground (arith, mem-absorb b c blocks, same)
    | no other ↦
        let there = l.in_log c (ground (arith, mem-absorb b c w, h, other)) in
        ground (arith, mem-absorb b c blocks, there)
  ];
}

-- A block that is new to the log is new to the operation, and uses up one that it may write.
pub absorb-room :
    (b : ℕ) (blocks w : List ℕ)
    → length (absorb b w) ≤ maxopblocks
    → IsLogged blocks w
    → length (absorb b blocks) + (maxopblocks - length (absorb b w))
      ≤ length blocks + (maxopblocks - length w)
absorb-room b blocks w few l =
    let now = length-absorb b blocks in
    let own = length-absorb b w in
    elim (Bool-cases (mem b w)) [
      | inl old ↦ let there = l.in_log b old in ground (arith, now, own, old, there)
      | inr new ↦ ground (arith, now, own, new, few)
    ]

-- `begin_op` succeeds only between commits, and only if every operation still fits.
pub begin_op-some :
    (l : LogState) {l' : LogState}
    → begin_op l ≡ some l'
    → (l.committing ≡ 0)
      × (length l.blocks + (l.outstanding + 1) * maxopblocks ≤ logsize)
      × (l' ≡ record l { outstanding = l.outstanding + 1 })
unfolding begin_op
begin_op-some l e = ground arith

pub log_write-ok :
    (b : ℕ) (l : LogState) {l' : LogState}
    → log_write b l ≡ ok l'
    → l' ≡ record l { blocks = absorb b l.blocks }
unfolding log_write
log_write-ok b l e = ground arith

pub end_op-ok :
    (l : LogState) {c : Bool} {l' : LogState}
    → end_op l ≡ ok (c, l')
    → (l.committing ≡ 0)
      × (0 < l.outstanding)
      × (l'.size ≡ l.size)
      × (l'.blocks ≡ l.blocks)
      × (l'.outstanding ≡ l.outstanding - 1)
      × (l'.committing ≤ 1)
      × (l'.committing ≡ 1 → l.outstanding ≡ 1)
unfolding end_op
end_op-ok l e = ground arith
