-- ===== src/SwapDisk.antt =====
-- The swap file of a process: writeToSwapFile and readFromSwapFile of fs.c, with filewrite and fileread
-- of file.c for a file that is an inode, open for reading and for writing, as createSwapFile leaves it.
-- The processes' log operations around each write are not part of it. The memory of words is read and
-- written by its bytes, the lowest first.
pub mod Writing
pub mod Reading
use os182_ass.Prelude.{
  ltb, leb, ◌==◌, if◌then◌else◌, ℕ, zero, suc, ◌+◌, ◌-◌, ◌*◌, ◌/◌, ◌%◌, ◌^◌, min, Bool, true, false,
  not, ◌&&◌, Option, none, some,
}
use os182_ass.Prelude.Outcome.{Outcome, ok, panic, fault, ◌>>=◌, ◌>>◌, panic_if}
use os182_ass.Memory.{Mem, pgsize}
use os182_ass.Strings.{Bytes}
use os182_ass.Log.{maxopblocks}
use os182_ass.Fs.{bsize, Superblock, Fs}
use os182_ass.Fs.Inode.{Inode, byte_of, ilock, Transfer, readi, writei}

-- The inode of `p->swapFile`, and the disk.
pub record SwapDisk : Type 0 where
  pub ip : Inode
  pub fs : Fs

-- `max` of `filewrite`
abbrev pub max_write : ℕ
max_write = (maxopblocks - 1 - 1 - 2) / 2 * 512

-- The loop of `filewrite` with the bytes left, of which each round writes one at least; `false` is -1.
unfoldable pub filewrite_loop : ℕ → Superblock → ℕ → ℕ → ℕ → Transfer → Outcome (Bool × Transfer)
filewrite_loop zero sb left off addr t = if left == 0 then ok (true, t) else fault
filewrite_loop (suc fuel) sb left off addr t =
    let n1 = min left max_write in
    let rest = (do
      ip ← ilock sb t.ip t.fs
      (r, t') ← writei sb addr off n1 (record t { ip = ip })
      elim r [
        | none ↦ ok (false, t')
        | some k ↦
            panic_if (not (k == n1)) >> filewrite_loop fuel sb (left - k) (off + k) (addr + k) t'
      ]) in
    if left == 0 then ok (true, t) else rest

unfoldable pub write_to_swap_file : Superblock → ℕ → ℕ → ℕ → Transfer → Outcome (Bool × Transfer)
write_to_swap_file sb buffer place size t = filewrite_loop size sb size place buffer t

-- The number of bytes that were read, or -1.
unfoldable pub read_from_swap_file :
    Superblock → ℕ → ℕ → ℕ → Transfer → Outcome (Option ℕ × Transfer)
read_from_swap_file sb buffer place size t = do
  ip ← ilock sb t.ip t.fs
  readi sb buffer place size (record t { ip = ip })

-- The bytes of a memory of words, and the word at an address of a memory of bytes.
abbrev pub bytes_of : Mem → Bytes
bytes_of m x = byte_of (m (x / 4 * 4)) (x % 4)

abbrev pub word_at : Bytes → ℕ → ℕ
word_at b a = b a + 2 ^ 8 * b (a + 1) + 2 ^ 16 * b (a + 2) + 2 ^ 24 * b (a + 3)

-- The memory of words after its page at `v` was written by bytes.
unfoldable pub page_from : Bytes → ℕ → Mem → Mem
page_from b v m a = if leb v a && ltb a (v + pgsize) then word_at b a else m a

-- The page at `v` goes to the file at `offset`.
unfoldable pub write_page : Superblock → ℕ → ℕ → Mem → SwapDisk → Outcome SwapDisk
write_page sb v offset m d = do
  (_, t) ← write_to_swap_file sb v offset pgsize (record { mem = bytes_of m; ip = d.ip; fs = d.fs })
  ok (record { ip = t.ip; fs = t.fs })

unfoldable pub read_page : Superblock → ℕ → ℕ → Mem → SwapDisk → Outcome (Mem × SwapDisk)
read_page sb v offset m d = do
  (_, t) ←
      read_from_swap_file sb v offset pgsize (record { mem = bytes_of m; ip = d.ip; fs = d.fs })
  ok (page_from t.mem v m, record { ip = t.ip; fs = t.fs })
