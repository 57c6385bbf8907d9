-- ===== src/Bcache.antt =====
-- The cache of disk blocks, bio.c, over the disk in memory of memide.c. A buffer is named by its
-- slot in `bcache.buf`; `order` is the list from `bcache.head.next` on, the most recently used first.
-- `bcache.lock` is held through each pass over the list, so such a pass is one step; the sleep lock of
-- a buffer, which keeps other processes from its contents, is not part of the state.
pub mod View
pub mod Slots
pub mod Get
pub mod Holding
pub mod Change
pub mod Release
pub mod Write
pub mod Runs
use os182_ass.Prelude.{
  leb, ◌==◌, if◌then◌else◌, ℕ, zero, suc, ◌+◌, ◌-◌, ◌%◌, ◌^◌, Bool, true, false, not, ◌&&◌, Option,
  none, some, List, [], ◌∷◌,
}
use os182_ass.Prelude.Outcome.{Outcome, ok, panic, ◌>>=◌, ◌>>◌, panic_if}
use os182_ass.Disk.{Block, Blocks, update}

abbrev pub nbuf : ℕ
nbuf = 30

-- `struct buf`; `valid` and `dirty` are the bits of `flags`.
pub record Buf : Type 0 where
  pub valid : Bool
  pub dirty : Bool
  pub dev : ℕ
  pub blockno : ℕ
  pub refcnt : ℕ
  pub contents : Block

pub record Cache : Type 0 where
  pub bufs : ℕ → Buf
  pub order : List ℕ
  pub disk : Blocks

-- The loop of `binit`: slots up to `n` are put at the head of the list in turn.
unfoldable pub init_order : ℕ → List ℕ
init_order zero = []
init_order (suc n) = n ∷ init_order n

-- Static data is zero.
unfoldable pub binit : Blocks → Cache
binit disk = record {
  bufs =
      λ s. record { valid = false; dirty = false; dev = 0; blockno = 0; refcnt = 0; contents = [] };
  order = init_order nbuf;
  disk = disk;
}

unfoldable pub put_buf : ℕ → Buf → Cache → Cache
put_buf s b c = record c { bufs = λ t. if t == s then b else c.bufs t }

abbrev pub is_for : ℕ → ℕ → Buf → Bool
is_for dev blockno b = (b.dev == dev) && (b.blockno == blockno)

-- The first loop of `bget`, along `next`.
unfoldable pub find_cached : ℕ → ℕ → (ℕ → Buf) → List ℕ → Option ℕ
find_cached dev blockno bufs [] = none
find_cached dev blockno bufs (s ∷ ss) =
    let rest = find_cached dev blockno bufs ss in
    if is_for dev blockno (bufs s) then some s else rest

abbrev pub can_recycle : Buf → Bool
can_recycle b = (b.refcnt == 0) && not b.dirty

-- The second loop of `bget`, along `prev`.
unfoldable pub find_unused_buf : (ℕ → Buf) → List ℕ → Option ℕ
find_unused_buf bufs [] = none
find_unused_buf bufs (s ∷ ss) = elim (find_unused_buf bufs ss) [
  | some t ↦ some t
  | none ↦ if can_recycle (bufs s) then some s else none
]

unfoldable pub bget : ℕ → ℕ → Cache → Outcome (ℕ × Cache)
bget dev blockno c = elim (find_cached dev blockno c.bufs c.order) [
  | some s ↦ ok (s, put_buf s (record (c.bufs s) { refcnt = ((c.bufs s).refcnt + 1) % 2 ^ 32 }) c)
  | none ↦ elim (find_unused_buf c.bufs c.order) [
    | some s ↦ ok (
      s,
      put_buf s
          (record (c.bufs s) {
            valid = false;
            dirty = false;
            dev = dev;
            blockno = blockno;
            refcnt = 1;
          })
          c,
    )
    | none ↦ panic
  ]
]

-- `iderw` of memide.c on a disk of `disksize` blocks.
unfoldable pub iderw : ℕ → ℕ → Cache → Outcome Cache
iderw disksize s c = do
  panic_if ((c.bufs s).valid && not (c.bufs s).dirty)
  panic_if (not ((c.bufs s).dev == 1))
  panic_if (leb disksize (c.bufs s).blockno)
  ok (
      if (c.bufs s).dirty
      then record (put_buf s (record (c.bufs s) { valid = true; dirty = false }) c) {
        disk = update c.disk (c.bufs s).blockno (c.bufs s).contents;
      }
      else put_buf s (record (c.bufs s) { valid = true; contents = c.disk (c.bufs s).blockno }) c)

unfoldable pub bread : ℕ → ℕ → ℕ → Cache → Outcome (ℕ × Cache)
bread disksize dev blockno c = do
  (s, got) ← bget dev blockno c
  if (got.bufs s).valid then ok (s, got) else (do read ← iderw disksize s got; ok (s, read))

unfoldable pub bwrite : ℕ → ℕ → Cache → Outcome Cache
bwrite disksize s c = iderw disksize s (put_buf s (record (c.bufs s) { dirty = true }) c)

unfoldable pub remove : ℕ → List ℕ → List ℕ
remove s [] = []
remove s (t ∷ ts) = let rest = remove s ts in if t == s then ts else t ∷ rest

unfoldable pub brelse : ℕ → Cache → Cache
brelse s c =
    let left = ((c.bufs s).refcnt + (2 ^ 32 - 1)) % 2 ^ 32 in
    let released = put_buf s (record (c.bufs s) { refcnt = left }) c in
    if left == 0 then record released { order = s ∷ remove s c.order } else released

-- A caller that holds the buffer changes its data and marks it with `log_write`.
unfoldable pub change : ℕ → Block → Cache → Cache
change s d c = put_buf s (record (c.bufs s) { contents = d; dirty = true }) c
