-- ===== src/Fs.antt =====
-- fs.c: the file system above the buffer cache. A block is an array of bytes; `blocks` is what
-- `bread` shows. `logged` are the blocks that were passed to `log_write`, in the order of the log.
pub mod Bitmap
pub mod Names
pub mod Inode
use os182_ass.Prelude.{◌==◌, if◌then◌else◌, ℕ, zero, suc, ◌+◌, ◌*◌, ◌/◌, ◌%◌, not, ◌&&◌, List}
use os182_ass.Prelude.Outcome.{Outcome, ok, panic, ◌>>=◌, ◌>>◌, panic_if}
use os182_ass.Prelude.Bits.{has_bit, bit_on, bit_off}
use os182_ass.Log.{absorb}

abbrev pub bsize : ℕ
bsize = 512

-- `BPB`
abbrev pub bpb : ℕ
bpb = bsize * 8

-- `struct superblock`
pub record Superblock : Type 0 where
  pub size : ℕ
  pub nblocks : ℕ
  pub ninodes : ℕ
  pub nlog : ℕ
  pub logstart : ℕ
  pub inodestart : ℕ
  pub bmapstart : ℕ

abbrev pub bblock : ℕ → Superblock → ℕ
bblock b sb = b / bpb + sb.bmapstart

pub record Fs : Type 0 where
  pub blocks : ℕ → ℕ → ℕ
  pub logged : List ℕ

-- `bp->data[off] = v; log_write(bp)` for the buffer of block `a`.
unfoldable pub store : ℕ → ℕ → ℕ → Fs → Fs
store a off v fs = record {
  blocks = λ c o. if (c == a) && (o == off) then v else fs.blocks c o;
  logged = absorb a fs.logged;
}

unfoldable pub bzero : ℕ → Fs → Fs
bzero bno fs = record {
  blocks = λ c o. if c == bno then 0 else fs.blocks c o;
  logged = absorb bno fs.logged;
}

-- The byte with the bit of block `b`, in the free map.
abbrev pub map_byte : Superblock → ℕ → Fs → ℕ
map_byte sb b fs = fs.blocks (bblock b sb) (b % bpb / 8)

-- The two loops of `balloc` run over all blocks in order: `b` is the sum of their counters.
unfoldable pub balloc_loop : ℕ → ℕ → Superblock → Fs → Outcome (ℕ × Fs)
balloc_loop zero b sb fs = panic
balloc_loop (suc rounds) b sb fs =
    let rest = balloc_loop rounds (suc b) sb fs in
    let bit = b % bpb % 8 in
    let old = map_byte sb b fs in
    if has_bit bit old
    then rest
    else ok (b, bzero b (store (bblock b sb) (b % bpb / 8) (bit_on bit old) fs))

unfoldable pub balloc : Superblock → Fs → Outcome (ℕ × Fs)
balloc sb fs = balloc_loop sb.size 0 sb fs

unfoldable pub bfree : Superblock → ℕ → Fs → Outcome Fs
bfree sb b fs = do
  panic_if (not (has_bit (b % bpb % 8) (map_byte sb b fs)))
  ok (store (bblock b sb) (b % bpb / 8) (bit_off (b % bpb % 8) (map_byte sb b fs)) fs)
