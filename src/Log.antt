-- ===== src/Log.antt =====
-- log.c: the log of disk blocks. The list `blocks` is `log.lh.block[0..log.lh.n)`.
pub mod Header
pub mod Phases
pub mod Crash
pub mod Operations
pub mod Reserve
use os182_ass.Prelude.{
  ltb, leb, ◌==◌, if◌then◌else◌, length, get_or, set, ℕ, zero, suc, ◌+◌, ◌-◌, ◌*◌, Bool, true,
  false, not, ◌||◌, Option, none, some, List, [], ◌∷◌,
}
use os182_ass.Prelude.Outcome.{Outcome, ok, panic, fault, ◌>>=◌, ◌>>◌, panic_if}
use os182_ass.Disk.{Block, Store, bread, bwrite}

abbrev pub logsize : ℕ
logsize = 30

abbrev pub maxopblocks : ℕ
maxopblocks = 10

-- `hb->block[i] = log.lh.block[i]` from word `i` of the header on; word 0 is `n`.
unfoldable pub put_words : ℕ → List ℕ → Block → Block
put_words i [] hb = hb
put_words i (b ∷ bs) hb = put_words (suc i) bs (set hb i b)

unfoldable pub get_words : ℕ → ℕ → Block → List ℕ
get_words zero i hb = []
get_words (suc n) i hb = get_or hb i 0 ∷ get_words n (suc i) hb

unfoldable pub write_head : ℕ → List ℕ → Store → Store
write_head start blocks s =
    bwrite start (put_words 1 blocks (set (bread s start) 0 (length blocks))) s

unfoldable pub read_head : ℕ → Store → List ℕ
read_head start s = get_words (get_or (bread s start) 0 0) 1 (bread s start)

-- The loop of `install_trans` from `tail` on, over `log.lh.block[tail..n)`.
unfoldable pub install_trans : ℕ → ℕ → List ℕ → Store → Store
install_trans start tail [] s = s
install_trans start tail (b ∷ bs) s =
    install_trans start (suc tail) bs (bwrite b (bread s (start + tail + 1)) s)

unfoldable pub write_log : ℕ → ℕ → List ℕ → Store → Store
write_log start tail [] s = s
write_log start tail (b ∷ bs) s =
    write_log start (suc tail) bs (bwrite (start + tail + 1) (bread s b) s)

unfoldable pub recover_from_log : ℕ → Store → Store
recover_from_log start s =
    let blocks = read_head start s in write_head start [] (install_trans start 0 blocks s)

-- The in-memory list is empty after it.
unfoldable pub commit : ℕ → List ℕ → Store → Store
commit start [] s = s
commit start (b ∷ bs) s =
    let logged = write_head start (b ∷ bs) (write_log start 0 (b ∷ bs) s) in
    write_head start [] (install_trans start 0 (b ∷ bs) logged)

-- `struct log` without the parts above; `committing` is 0 or 1.
pub record LogState : Type 0 where
  pub size : ℕ
  pub outstanding : ℕ
  pub committing : ℕ
  pub blocks : List ℕ

-- The loop of `log_write`: the block number is there already, or goes behind the last one.
unfoldable pub absorb : ℕ → List ℕ → List ℕ
absorb b [] = b ∷ []
absorb b (x ∷ xs) = if x == b then b ∷ xs else x ∷ absorb b xs

unfoldable pub log_write : ℕ → LogState → Outcome LogState
log_write b l = do
  panic_if (leb logsize (length l.blocks) || leb (l.size - 1) (length l.blocks))
  panic_if (ltb l.outstanding 1)
  ok (record l { blocks = absorb b l.blocks })

-- A round of the loop of `begin_op`: `none` is the sleep until a wakeup on `log`.
unfoldable pub begin_op : LogState → Option LogState
begin_op l =
    if not (l.committing == 0)
    then none
    else if ltb logsize (length l.blocks + (l.outstanding + 1) * maxopblocks)
    then none
    else some (record l { outstanding = l.outstanding + 1 })

-- `end_op` up to the commit: whether this call commits. No caller ends an operation that it did not
-- begin; that would make the count negative, and is a fault here.
unfoldable pub end_op : LogState → Outcome (Bool × LogState)
end_op l = if l.outstanding == 0 then fault else do
  panic_if (not (l.committing == 0))
  ok (
      if l.outstanding - 1 == 0
      then (true, record l { outstanding = 0; committing = 1 })
      else (false, record l { outstanding = l.outstanding - 1 }))

-- `end_op` after `commit`, which has emptied the list.
unfoldable pub end_commit : LogState → LogState
end_commit l = record l { committing = 0; blocks = [] }
