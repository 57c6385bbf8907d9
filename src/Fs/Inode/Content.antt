-- ===== src/Fs/Inode/Content.antt =====
-- The bytes of a file whose blocks are all there.
use os182_ass.Prelude.{
  ltb, ◌==◌, if◌then◌else◌, Bool-cases, ℕ, ◌+◌, ◌-◌, ◌/◌, ◌%◌, ◌≤◌, ◌<◌, ◌≡◌, refl, subst, ◌≢◌, inl,
  inr, true, false, arith,
}
use os182_ass.Prelude.Outcome.{ok}
use os182_ass.Fs.{bsize, Superblock, Fs}
use os182_ass.Fs.Inode.{
  ndirect, nindirect, maxfile, iblock, Inode, get_word, addr_at, indirect_at, bmap, chunk,
}

-- Block `bn` of a file, when it is there.
abbrev pub file_block : Inode → Fs → ℕ → ℕ
file_block ip fs bn =
    if ltb bn ndirect then ip.addrs bn else get_word (fs.blocks (ip.addrs ndirect)) (bn - ndirect)

-- Byte `o` of a file.
abbrev pub content : Inode → Fs → ℕ → ℕ
content ip fs o = fs.blocks (file_block ip fs (o / bsize)) (o % bsize)

-- The first `nb` blocks are there.
pub record IsMapped (ip : Inode) (fs : Fs) (nb : ℕ) : Type 0 where
  pub in_range : nb ≤ maxfile
  pub there : (bn : ℕ) → bn < nb → file_block ip fs bn ≢ 0
  pub indirect_there : ndirect < nb → ip.addrs ndirect ≢ 0

-- They are different blocks, and neither the indirect block nor the block of the inode.
pub record AreApart (sb : Superblock) (ip : Inode) (fs : Fs) (nb : ℕ) : Type 0 where
  pub different : (b c : ℕ) → b < nb → c < nb → file_block ip fs b ≡ file_block ip fs c → b ≡ c
  pub not_indirect : (b : ℕ) → b < nb → ndirect < nb → file_block ip fs b ≢ ip.addrs ndirect
  pub not_inode : (b : ℕ) → b < nb → file_block ip fs b ≢ iblock ip.inum sb
  pub indirect_not_inode : ndirect < nb → ip.addrs ndirect ≢ iblock ip.inum sb

addr_at-there :
    (sb : Superblock) (i : ℕ) (ip : Inode) (fs : Fs)
    → ip.addrs i ≢ 0
    → addr_at sb i ip fs ≡ ok (ip.addrs i, ip, fs)
unfolding addr_at
addr_at-there sb i ip fs ne =
    let e : (ip.addrs i == 0) ≡ false = ground (arith, ne) in rw (e, addr_at) refl

indirect_at-there :
    (sb : Superblock) (ind j : ℕ) (ip : Inode) (fs : Fs)
    → get_word (fs.blocks ind) j ≢ 0
    → indirect_at sb ind j ip fs ≡ ok (get_word (fs.blocks ind) j, ip, fs)
unfolding indirect_at
indirect_at-there sb ind j ip fs ne =
    let e : (get_word (fs.blocks ind) j == 0) ≡ false = ground (arith, ne) in
    rw (e, indirect_at) refl

pub bmap-IsMapped :
    (sb : Superblock) (bn : ℕ) (ip : Inode) (fs : Fs) {nb : ℕ}
    → IsMapped ip fs nb
    → bn < nb
    → bmap sb bn ip fs ≡ ok (file_block ip fs bn, ip, fs)
unfolding bmap
bmap-IsMapped sb bn ip fs {nb} mapped lt = elim (Bool-cases (ltb bn ndirect)) [
  | inl direct ↦
      let ne : ip.addrs bn ≢ 0 =
        subst
          (λ b.
            (if b then ip.addrs bn else get_word (fs.blocks (ip.addrs ndirect)) (bn - ndirect)) ≢ 0)
          direct (mapped.there bn lt) in
      rw (direct, bmap) (addr_at-there sb bn ip fs ne)
  | inr indirect ↦
      let ne : get_word (fs.blocks (ip.addrs ndirect)) (bn - ndirect) ≢ 0 =
        subst
          (λ b.
            (if b then ip.addrs bn else get_word (fs.blocks (ip.addrs ndirect)) (bn - ndirect)) ≢ 0)
          indirect (mapped.there bn lt) in
      let more : ndirect < nb = ground (arith, indirect, lt) in
      let small : ltb (bn - ndirect) nindirect ≡ true =
        ground (arith, mapped.in_range, lt, indirect) in
      rw (indirect, small, addr_at-there sb ndirect ip fs (mapped.indirect_there more), bmap)
        (indirect_at-there sb (ip.addrs ndirect) (bn - ndirect) ip fs ne)
]

-- The bytes of one round lie in one block.
pub same_block :
    (left off j : ℕ)
    → j < chunk left off
    → ((off + j) / bsize ≡ off / bsize) × ((off + j) % bsize ≡ off % bsize + j)
same_block left off j lt = (omega (arith, lt), omega (arith, lt))

pub chunk-bounds : (left off : ℕ) → 0 < left → (0 < chunk left off) × (chunk left off ≤ left)
chunk-bounds left off pos = (omega (arith, pos), omega arith)
