-- ===== src/Log/Reserve.antt =====
-- The operations of several processes on the log, in any order: `begin_op` lets one in only if the
-- log has room for `MAXOPBLOCKS` blocks of each, so no `log_write` within that allowance panics.
use os182_ass.Prelude.{
  ◌==◌, Bool-cases, length, All, length-append, ℕ, suc, ◌+◌, ◌-◌, ◌≤◌, ◌<◌, ◌≡◌, refl, sym, ap, ◌∙◌,
  subst, ◌⊎◌, inl, inr, Bool, true, false, some, List, [], ◌∷◌, ◌++◌, arith, dec_lt, ℕ_discrete,
}
use os182_ass.Prelude.Outcome.{ok, panic}
use os182_ass.Log.{logsize, maxopblocks, LogState, absorb, log_write, begin_op, end_op, end_commit}
use os182_ass.Log.Operations.{
  System, unused, Step, start, put, stop, finish, Reach, here, next, IsLogged, IsValid,
  unused-append, unused-le, All-append, All-parts, All-imp, IsLogged-absorb, IsLogged-written,
  absorb-room, begin_op-some, log_write-ok, end_op-ok,
}

module _ {size : ℕ} {s : System} (v : IsValid size s) where
  start-IsValid :
      {l : LogState}
      → begin_op s.log ≡ some l
      → IsValid size (record { log = l; written = [] ∷ s.written })
  start-IsValid e =
      let (idle, fits, same) = begin_op-some s.log e in
      rw same (record {
        same_size = v.same_size;
        counted = omega (arith, v.counted);
        reserved = omega (arith, unused-le s.written, fits, v.counted);
        logged = (record { few = omega arith; in_log = λ b h. absurd cc }, v.logged);
        one_commit = omega (arith, idle);
        quiet = λ c. absurd (omega (arith, c, idle));
      })

  put-IsValid :
      (b : ℕ) (front : List (List ℕ)) (w : List ℕ) (back : List (List ℕ)) {l : LogState}
      → s.written ≡ front ++ w ∷ back
      → length (absorb b w) ≤ maxopblocks
      → log_write b s.log ≡ ok l
      → IsValid size (record { log = l; written = front ++ absorb b w ∷ back })
  put-IsValid b front w back e few writes =
      let bs = s.log.blocks in
      let before =
        All-parts (IsLogged bs) front (w ∷ back) (subst (All (IsLogged bs)) e v.logged) in
      rw (log_write-ok b s.log writes) (record {
        same_size = v.same_size;
        counted = omega (
          arith,
          v.counted,
          ap (length {A = List ℕ}) e,
          length-append front (w ∷ back),
          length-append front (absorb b w ∷ back),
        );
        reserved = omega (
          arith,
          v.reserved,
          ap unused e,
          unused-append front (w ∷ back),
          unused-append front (absorb b w ∷ back),
          absorb-room b bs w few before.1.0,
        );
        logged =
            All-append (IsLogged (absorb b bs)) front (absorb b w ∷ back)
              (All-imp (IsLogged bs) (IsLogged (absorb b bs)) front (IsLogged-absorb b bs) before.0)
              (
                IsLogged-written b bs w few before.1.0,
                All-imp (IsLogged bs) (IsLogged (absorb b bs)) back (IsLogged-absorb b bs)
                    before.1.1,
              );
        one_commit = v.one_commit;
        quiet = λ c. absurd (
            omega (
              arith,
              ap (length {A = List ℕ}) (sym e ∙ v.quiet c),
              length-append front (w ∷ back),
            ));
      })

  stop-IsValid :
      (front : List (List ℕ)) (w : List ℕ) (back : List (List ℕ)) {c : Bool} {l : LogState}
      → s.written ≡ front ++ w ∷ back
      → end_op s.log ≡ ok (c, l)
      → IsValid size (record { log = l; written = front ++ back })
  stop-IsValid front w back {l = l} e ends =
      let bs = s.log.blocks in
      let (idle, pos, same_size, same_blocks, fewer, bit, last) = end_op-ok s.log ends in
      let before =
        All-parts (IsLogged bs) front (w ∷ back) (subst (All (IsLogged bs)) e v.logged) in
      let len : length (front ++ back) + 1 ≡ length s.written = omega (
        arith,
        ap (length {A = List ℕ}) e,
        length-append front (w ∷ back),
        length-append front back,
      ) in
      record {
        same_size = same_size ∙ v.same_size;
        counted = omega (arith, v.counted, fewer, len);
        reserved = omega (
          arith,
          v.reserved,
          ap unused e,
          unused-append front (w ∷ back),
          unused-append front back,
          ap (length {A = ℕ}) same_blocks,
        );
        logged =
            subst (λ x. All (IsLogged x) (front ++ back)) (sym same_blocks)
              (All-append (IsLogged bs) front back before.0 before.1.1);
        one_commit = bit;
        quiet = λ c. empty (front ++ back) (omega (arith, last c, v.counted, len));
      }
    where
      empty : (xs : List (List ℕ)) → length xs ≡ 0 → xs ≡ []
      empty [] h = refl
      empty (x ∷ xs) h = absurd (omega (arith, h))

  finish-IsValid :
      s.log.committing ≡ 1 → IsValid size (record { log = end_commit s.log; written = s.written })
  unfolding end_commit
  finish-IsValid c = record {
    same_size = v.same_size;
    counted = v.counted;
    reserved = omega (arith, v.reserved);
    logged = subst (All (IsLogged [])) (sym (v.quiet c)) tt;
    one_commit = omega arith;
    quiet = λ z. absurd (omega (arith, z));
  }

Step-IsValid : {size : ℕ} {s t : System} → Step s t → IsValid size s → IsValid size t
Step-IsValid (start e) v = start-IsValid v e
Step-IsValid (put b front w back e few writes) v = put-IsValid v b front w back e few writes
Step-IsValid (stop front w back c e ends) v = stop-IsValid v front w back e ends
Step-IsValid (finish c) v = finish-IsValid v c

-- In every state that operations of at most `MAXOPBLOCKS` different blocks each reach, in any order of
-- their steps, the blocks in the log and those that the operations may still write fit into `LOGSIZE`,
-- the blocks of each operation are in the log, the count of operations is right, and none is in
-- progress during a commit.
pub Reach-IsValid : {size : ℕ} {s : System} → Reach size s → IsValid size s
Reach-IsValid here = record {
  same_size = refl;
  counted = refl;
  reserved = omega arith;
  logged = tt;
  one_commit = omega arith;
  quiet = λ c. refl;
}
Reach-IsValid (next r st) = Step-IsValid st (Reach-IsValid r)

log_write-runs :
    (b : ℕ) (l : LogState)
    → length l.blocks < logsize
    → length l.blocks < l.size - 1
    → 0 < l.outstanding
    → log_write b l ≡ ok (record l { blocks = absorb b l.blocks })
unfolding log_write
log_write-runs b l lt room pos = ground (arith, lt, room, pos)

log_write-full : (b : ℕ) (l : LogState) → l.size - 1 ≤ length l.blocks → log_write b l ≡ panic
unfolding log_write
log_write-full b l full = ground (arith, full)

-- In every state that operations of at most `MAXOPBLOCKS` different blocks each reach, an operation
-- that has written less than `MAXOPBLOCKS` blocks writes a block without a panic, if the log on the disk
-- has more than `LOGSIZE` blocks. If it has `LOGSIZE` blocks, as mkfs.c makes it, the write panics in
-- one case only, that the log holds `LOGSIZE - 1` blocks already.
pub log_write-reserved :
    {size : ℕ} {s : System} (b : ℕ) (front : List (List ℕ)) (w : List ℕ) (back : List (List ℕ))
    → logsize ≤ size
    → Reach size s
    → s.written ≡ front ++ w ∷ back
    → length w < maxopblocks
    → (log_write b s.log ≡ ok (record s.log { blocks = absorb b s.log.blocks }))
      ⊎ ((size ≡ logsize) × (suc (length s.log.blocks) ≡ logsize) × (log_write b s.log ≡ panic))
log_write-reserved {size} {s} b front w back wide r e room =
    let v = Reach-IsValid r in
    let left = unused-append front (w ∷ back) in
    let lt : length s.log.blocks < logsize = omega (arith, v.reserved, ap unused e, left, room) in
    let pos : 0 < s.log.outstanding =
      omega (arith, v.counted, ap (length {A = List ℕ}) e, length-append front (w ∷ back)) in
    elim (dec_lt (length s.log.blocks) (size - 1)) [
      | yes fits ↦ inl (log_write-runs b s.log lt (omega (arith, fits, v.same_size)) pos)
      | no full ↦ inr (
        omega (arith, full, lt, wide),
        omega (arith, full, lt, wide),
        log_write-full b s.log (omega (arith, full, v.same_size)),
      )
    ]

end_op-runs :
    (l : LogState)
    → 0 < l.outstanding
    → l.committing ≡ 0
    → (c : Bool) × (l' : LogState) × (end_op l ≡ ok (c, l'))
unfolding end_op
end_op-runs l pos idle = elim (Bool-cases (l.outstanding - 1 == 0)) [
  | inl h ↦ (true, record l { outstanding = 0; committing = 1 }, ground arith)
  | inr h ↦ (false, record l { outstanding = l.outstanding - 1 }, ground arith)
]

-- `end_op` of an operation in progress never panics.
pub end_op-never_panics :
    {size : ℕ} {s : System} (front : List (List ℕ)) (w : List ℕ) (back : List (List ℕ))
    → Reach size s
    → s.written ≡ front ++ w ∷ back
    → (c : Bool) × (l : LogState) × (end_op s.log ≡ ok (c, l))
end_op-never_panics {s} front w back r e =
    let v = Reach-IsValid r in
    let len : length s.written ≡ length front + suc (length back) =
      ap (length {A = List ℕ}) e ∙ length-append front (w ∷ back) in
    end_op-runs s.log (omega (arith, v.counted, len)) (elim (ℕ_discrete s.log.committing 1) [
      | yes c ↦ absurd (omega (arith, len, ap (length {A = List ℕ}) (v.quiet c)))
      | no n ↦ omega (arith, n, v.one_commit)
    ])
