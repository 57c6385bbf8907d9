-- ===== src/Fs/Inode.antt =====
-- Inodes of fs.c: the blocks of a file, and its bytes. `struct inode` is without its lock; a caller
-- of these functions holds it.
pub mod OnDisk
pub mod Content
pub mod Read
pub mod Round
pub mod Write
pub mod Writei
use os182_ass.Prelude.{
  ltb, leb, ◌==◌, if◌then◌else◌, ℕ, zero, suc, ◌+◌, ◌-◌, ◌*◌, ◌/◌, ◌%◌, ◌^◌, min, Bool, true, not,
  ◌&&◌, ◌||◌, Option, none, some,
}
use os182_ass.Prelude.Outcome.{Outcome, ok, panic, fault, ◌>>=◌, ◌>>◌, panic_if}
use os182_ass.Strings.{Bytes}
use os182_ass.Log.{absorb}
use os182_ass.Fs.{bsize, Superblock, Fs, balloc}

abbrev pub ndirect : ℕ
ndirect = 12

abbrev pub nindirect : ℕ
nindirect = bsize / 4

abbrev pub maxfile : ℕ
maxfile = ndirect + nindirect

-- `IPB` and `IBLOCK`
abbrev pub ipb : ℕ
ipb = bsize / 64

abbrev pub iblock : ℕ → Superblock → ℕ
iblock i sb = i / ipb + sb.inodestart

-- `struct inode`; `addrs` has the indices up to `NDIRECT`.
pub record Inode : Type 0 where
  pub inum : ℕ
  pub ref : ℕ
  pub valid : Bool
  pub kind : ℕ
  pub major : ℕ
  pub minor : ℕ
  pub nlink : ℕ
  pub size : ℕ
  pub addrs : ℕ → ℕ

-- Byte `j` of a number in memory.
abbrev pub byte_of : ℕ → ℕ → ℕ
byte_of w j = w / 2 ^ (8 * j) % 2 ^ 8

-- The word at index `j` of `(uint*)bp->data`.
abbrev pub get_word : (ℕ → ℕ) → ℕ → ℕ
get_word b j = b (4 * j) + 2 ^ 8 * b (4 * j + 1) + 2 ^ 16 * b (4 * j + 2) + 2 ^ 24 * b (4 * j + 3)

-- The bytes from `off` on of block `a` become the `n` bytes `c`, and the block goes to `log_write`.
unfoldable pub store_bytes : ℕ → ℕ → ℕ → (ℕ → ℕ) → Fs → Fs
store_bytes a off n c fs = record {
  blocks = λ d o. if (d == a) && leb off o && ltb o (off + n) then c (o - off) else fs.blocks d o;
  logged = absorb a fs.logged;
}

-- `a[j] = w; log_write(bp)`
abbrev pub put_word : ℕ → ℕ → ℕ → Fs → Fs
put_word a j w fs = store_bytes a (4 * j) 4 (byte_of w) fs

abbrev pub set_addr : ℕ → ℕ → Inode → Inode
set_addr i addr ip = record ip { addrs = λ j. if j == i then addr else ip.addrs j }

-- `if((addr = ip->addrs[i]) == 0) ip->addrs[i] = addr = balloc(ip->dev)`
unfoldable pub addr_at : Superblock → ℕ → Inode → Fs → Outcome (ℕ × Inode × Fs)
addr_at sb i ip fs =
    if ip.addrs i == 0
    then (balloc sb fs >>= λ r. ok (r.0, set_addr i r.0 ip, r.1))
    else ok (ip.addrs i, ip, fs)

-- The same for entry `j` of the indirect block `ind`.
unfoldable pub indirect_at : Superblock → ℕ → ℕ → Inode → Fs → Outcome (ℕ × Inode × Fs)
indirect_at sb ind j ip fs =
    if get_word (fs.blocks ind) j == 0
    then (balloc sb fs >>= λ r. ok (r.0, ip, put_word ind j r.0 r.1))
    else ok (get_word (fs.blocks ind) j, ip, fs)

unfoldable pub bmap : Superblock → ℕ → Inode → Fs → Outcome (ℕ × Inode × Fs)
bmap sb bn ip fs =
    if ltb bn ndirect
    then addr_at sb bn ip fs
    else if ltb (bn - ndirect) nindirect
    then (addr_at sb ndirect ip fs >>= λ r. indirect_at sb r.0 (bn - ndirect) r.1 r.2)
    else panic

-- The bytes of a `struct dinode`, by its fields.
abbrev pub dinode_byte : Inode → ℕ → ℕ
dinode_byte ip o =
    if ltb o 2
    then byte_of ip.kind o
    else if ltb o 4
    then byte_of ip.major (o - 2)
    else if ltb o 6
    then byte_of ip.minor (o - 4)
    else if ltb o 8
    then byte_of ip.nlink (o - 6)
    else if ltb o 12
    then byte_of ip.size (o - 8)
    else byte_of (ip.addrs ((o - 12) / 4)) ((o - 12) % 4)

unfoldable pub iupdate : Superblock → Inode → Fs → Fs
iupdate sb ip fs = store_bytes (iblock ip.inum sb) (ip.inum % ipb * 64) 64 (dinode_byte ip) fs

-- Two bytes of the disk inode of `inum`, and four, at an offset.
abbrev pub dinode_short : Superblock → ℕ → Fs → ℕ → ℕ
dinode_short sb inum fs o =
    let b = fs.blocks (iblock inum sb) in let at = inum % ipb * 64 + o in b at + 2 ^ 8 * b (at + 1)

abbrev pub dinode_word : Superblock → ℕ → Fs → ℕ → ℕ
dinode_word sb inum fs o =
    let b = fs.blocks (iblock inum sb) in
    let at = inum % ipb * 64 + o in
    b at + 2 ^ 8 * b (at + 1) + 2 ^ 16 * b (at + 2) + 2 ^ 24 * b (at + 3)

-- The fields that `ilock` reads from the disk.
abbrev pub load_inode : Superblock → Inode → Fs → Inode
load_inode sb ip fs = record ip {
  valid = true;
  kind = dinode_short sb ip.inum fs 0;
  major = dinode_short sb ip.inum fs 2;
  minor = dinode_short sb ip.inum fs 4;
  nlink = dinode_short sb ip.inum fs 6;
  size = dinode_word sb ip.inum fs 8;
  addrs = λ i. dinode_word sb ip.inum fs (12 + 4 * i);
}

-- `ilock`, but for the lock.
unfoldable pub ilock : Superblock → Inode → Fs → Outcome Inode
ilock sb ip fs = do
  panic_if (ltb ip.ref 1)
  panic_if (not ip.valid && ((load_inode sb ip fs).kind == 0))
  ok (if ip.valid then ip else load_inode sb ip fs)

-- What the loops of `readi` and `writei` change: the memory, the inode and the disk.
pub record Transfer : Type 0 where
  pub mem : Bytes
  pub ip : Inode
  pub fs : Fs

-- `memmove(dst, c, n)` of bytes that are not in the memory.
unfoldable pub copy_to : ℕ → ℕ → (ℕ → ℕ) → Bytes → Bytes
copy_to dst n c m x = if leb dst x && ltb x (dst + n) then c (x - dst) else m x

-- `min(n - tot, BSIZE - off % BSIZE)`
abbrev pub chunk : ℕ → ℕ → ℕ
chunk left off = min left (bsize - off % bsize)

-- The loop of `readi` with the bytes left; each round takes one at least.
unfoldable pub readi_loop : ℕ → Superblock → ℕ → ℕ → ℕ → Transfer → Outcome Transfer
readi_loop zero sb left off dst s = if left == 0 then ok s else fault
readi_loop (suc fuel) sb left off dst s =
    let m = chunk left off in
    let rest = (do
      (a, ip, fs) ← bmap sb (off / bsize) s.ip s.fs
      readi_loop fuel sb (left - m) (off + m) (dst + m) (record {
        mem = copy_to dst m (λ j. fs.blocks a (off % bsize + j)) s.mem;
        ip = ip;
        fs = fs;
      })) in
    if left == 0 then ok s else rest

unfoldable pub writei_loop : ℕ → Superblock → ℕ → ℕ → ℕ → Transfer → Outcome Transfer
writei_loop zero sb left off src s = if left == 0 then ok s else fault
writei_loop (suc fuel) sb left off src s =
    let m = chunk left off in
    let rest = (do
      (a, ip, fs) ← bmap sb (off / bsize) s.ip s.fs
      writei_loop fuel sb (left - m) (off + m) (src + m)
          (record s { ip = ip; fs = store_bytes a (off % bsize) m (λ j. s.mem (src + j)) fs })) in
    if left == 0 then ok s else rest

-- `readi` of a file that is no device: `none` is -1, otherwise the number of bytes.
unfoldable pub readi : Superblock → ℕ → ℕ → ℕ → Transfer → Outcome (Option ℕ × Transfer)
readi sb dst off n s =
    let n' = if ltb s.ip.size (off + n) then s.ip.size - off else n in
    if ltb s.ip.size off || leb (2 ^ 32) (off + n)
    then ok (none, s)
    else (readi_loop n' sb n' off dst s >>= λ s'. ok (some n', s'))

unfoldable pub writei : Superblock → ℕ → ℕ → ℕ → Transfer → Outcome (Option ℕ × Transfer)
writei sb src off n s =
    if ltb s.ip.size off || leb (2 ^ 32) (off + n) || ltb (maxfile * bsize) (off + n)
    then ok (none, s)
    else (writei_loop n sb n off src s >>= λ s'.
        if ltb 0 n && ltb s'.ip.size (off + n)
        then (let grown = record s'.ip { size = off + n } in
            ok (some n, record s' { ip = grown; fs = iupdate sb grown s'.fs }))
        else ok (some n, s'))
