-- ===== src/Fs/Inode/Writei.antt =====
-- `writei`, and `readi` after it.
use os182_ass.Prelude.{
  ltb, leb, if◌then◌else◌, ℕ, ◌+◌, ◌-◌, ◌*◌, ◌/◌, ◌%◌, ◌^◌, ◌≤◌, ◌<◌, min, ◌≡◌, refl, sym, ap, ◌∙◌,
  subst, ◌≢◌, inl, inr, true, false, ◌&&◌, ◌||◌, some, arith, dec_lt,
}
use os182_ass.Prelude.Outcome.{ok}
use os182_ass.Fs.{bsize, Superblock, Fs}
use os182_ass.Fs.Inode.{
  ndirect, maxfile, iblock, ipb, Inode, dinode_byte, iupdate, Transfer, writei, readi,
}
use os182_ass.Fs.Inode.Content.{file_block, content, IsMapped, AreApart}
use os182_ass.Fs.Inode.Round.{IsMapped-same, AreApart-same, store_bytes-other, file_block-same}
use os182_ass.Fs.Inode.Write.{writei_loop-Written}
use os182_ass.Fs.Inode.Read.{readi_lem}

-- The inode's own block holds no bytes of the file.
module _ {sb : Superblock} {ip : Inode} {fs : Fs} {nb : ℕ} (apart : AreApart sb ip fs nb)
    (size : ℕ) where
  iupdate-other :
      (d : ℕ)
      → d ≢ iblock ip.inum sb
      → (iupdate sb (record ip { size = size }) fs).blocks d ≡ fs.blocks d
  unfolding iupdate
  iupdate-other d ne =
      store_bytes-other (iblock ip.inum sb) (ip.inum % ipb * 64) 64
        (dinode_byte (record ip { size = size })) fs d ne

  iupdate-blocks :
      (b : ℕ)
      → b < nb
      → file_block ip (iupdate sb (record ip { size = size }) fs) b ≡ file_block ip fs b
  iupdate-blocks b lt =
      file_block-same ip fs (iupdate sb (record ip { size = size }) fs) nb b lt
        (λ more. iupdate-other (ip.addrs ndirect) (apart.indirect_not_inode more))

  iupdate-content :
      (o : ℕ)
      → o < bsize * nb
      → content ip (iupdate sb (record ip { size = size }) fs) o ≡ content ip fs o
  iupdate-content o lt =
      let bn_lt : o / bsize < nb = omega (arith, lt) in
      ap (λ b. (iupdate sb (record ip { size = size }) fs).blocks b (o % bsize))
        (iupdate-blocks (o / bsize) bn_lt)
      ∙ ap (λ c. c (o % bsize))
          (iupdate-other (file_block ip fs (o / bsize)) (apart.not_inode (o / bsize) bn_lt))

  grown-IsMapped :
      IsMapped ip fs nb
      → IsMapped (record ip { size = size }) (iupdate sb (record ip { size = size }) fs) nb
  grown-IsMapped mapped = record {
    in_range = mapped.in_range;
    there = λ b lt e. mapped.there b lt (sym (iupdate-blocks b lt) ∙ e);
    indirect_there = mapped.indirect_there;
  }

  grown-AreApart :
      AreApart sb (record ip { size = size }) (iupdate sb (record ip { size = size }) fs) nb
  grown-AreApart = record {
    different = λ b c lb lc e.
        apart.different b c lb lc (sym (iupdate-blocks b lb) ∙ e ∙ iupdate-blocks c lc);
    not_indirect = λ b lb more e. apart.not_indirect b lb more (sym (iupdate-blocks b lb) ∙ e);
    not_inode = λ b lb e. apart.not_inode b lb (sym (iupdate-blocks b lb) ∙ e);
    indirect_not_inode = apart.indirect_not_inode;
  }

-- What `writei` leaves: the bytes in the file, the size up to them, the memory as it was.
pub record Wrote (sb : Superblock) (nb src off n : ℕ) (s s' : Transfer) : Type 0 where
  pub same_mem : s'.mem ≡ s.mem
  pub same_ref : s'.ip.ref ≡ s.ip.ref
  pub same_valid : s'.ip.valid ≡ s.ip.valid
  pub size : s'.ip.size ≡ (if ltb s.ip.size (off + n) then off + n else s.ip.size)
  pub mapped : IsMapped s'.ip s'.fs nb
  pub apart : AreApart sb s'.ip s'.fs nb
  pub bytes :
      (o : ℕ)
      → o < bsize * nb
      → content s'.ip s'.fs o
        ≡ (if leb off o && ltb o (off + n) then s.mem (src + (o - off)) else content s.ip s.fs o)

-- `writei` of `n` bytes from an offset in the file on, where the blocks are there up to the last byte
-- and are different from one another and from the blocks with their addresses: it returns `n`, the
-- bytes of the file from the offset on are the ones of the memory, all other bytes of its blocks stay
-- as they are, and the size grows to the end of the bytes if it was less.
pub writei_lem :
    (sb : Superblock) (src off n : ℕ) (s : Transfer) (nb : ℕ)
    → IsMapped s.ip s.fs nb
    → AreApart sb s.ip s.fs nb
    → off ≤ s.ip.size
    → off + n ≤ bsize * nb
    → (s' : Transfer) × (writei sb src off n s ≡ ok (some n, s')) × Wrote sb nb src off n s s'
unfolding writei
writei_lem sb src off n s nb mapped apart in_file inside =
    let (fs', runs, w) =
      writei_loop-Written n sb n off src s nb (omega arith) mapped apart inside in
    let allowed : (ltb s.ip.size off || leb (2 ^ 32) (off + n) || ltb (maxfile * bsize) (off + n))
        ≡ false =
      ground (arith, in_file, inside, mapped.in_range) in
    elim (dec_lt s.ip.size (off + n)) [
      | no stays ↦
          let same_size : (ltb 0 n && ltb s.ip.size (off + n)) ≡ false = ground (arith, stays) in
          (
            record s { fs = fs' },
            rw (allowed, runs, writei) (rw (same_size, writei) refl),
            record {
              same_mem = refl;
              same_ref = refl;
              same_valid = refl;
              size = ground (arith, stays);
              mapped = IsMapped-same w.same_blocks mapped;
              apart = AreApart-same w.same_blocks apart;
              bytes = w.bytes;
            },
          )
      | yes grows ↦
          let new_size : (ltb 0 n && ltb s.ip.size (off + n)) ≡ true =
            ground (arith, grows, in_file) in
          let apart' : AreApart sb s.ip fs' nb = AreApart-same w.same_blocks apart in
          (
            record s {
              ip = record s.ip { size = off + n };
              fs = iupdate sb (record s.ip { size = off + n }) fs';
            },
            rw (allowed, runs, writei) (rw (new_size, writei) refl),
            record {
              same_mem = refl;
              same_ref = refl;
              same_valid = refl;
              size = ground (arith, grows);
              mapped = grown-IsMapped apart' (off + n) (IsMapped-same w.same_blocks mapped);
              apart = grown-AreApart apart' (off + n);
              bytes = λ o lt. iupdate-content apart' (off + n) o lt ∙ w.bytes o lt;
            },
          )
    ]

-- `readi` of the same bytes after `writei` brings them back: with the file as for `writei`, both calls
-- return `n`, and the `n` bytes at `dst` are then those that stood at `src`.
pub readi-writei :
    (sb : Superblock) (src dst off n : ℕ) (s : Transfer) (nb : ℕ)
    → IsMapped s.ip s.fs nb
    → AreApart sb s.ip s.fs nb
    → off ≤ s.ip.size
    → s.ip.size ≤ bsize * nb
    → off + n ≤ bsize * nb
    → (s' : Transfer) × (s'' : Transfer) × (writei sb src off n s ≡ ok (some n, s'))
      × (readi sb dst off n s' ≡ ok (some n, s''))
      × ((j : ℕ) → j < n → s''.mem (dst + j) ≡ s.mem (src + j))
readi-writei sb src dst off n s nb mapped apart in_file whole inside =
    let (s', runs, w) = writei_lem sb src off n s nb mapped apart in_file inside in
    let size_le : s'.ip.size ≤ bsize * nb = ground (arith, w.size, whole, inside) in
    let reaches : off + n ≤ s'.ip.size = ground (arith, w.size) in
    let word : off + n < 2 ^ 32 = omega (arith, inside, mapped.in_range) in
    elim (readi_lem sb dst off n s' nb w.mapped size_le word) [
      | inl (behind, _) ↦ absurd (omega (arith, behind, reaches))
      | inr (le, m', reads, bytes) ↦
          let all : min n (s'.ip.size - off) ≡ n = omega (arith, reaches) in
          (
            s',
            record s' { mem = m' },
            runs,
            subst (λ k. readi sb dst off n s' ≡ ok (some k, record s' { mem = m' })) all reads,
            λ j lt.
                let copied : m' (dst + j) ≡ content s'.ip s'.fs (off + (dst + j - dst)) =
                  bytes (dst + j) ∙ ground (arith, all, lt) in
                let there : off + (dst + j - dst) ≡ off + j = omega arith in
                let written = w.bytes (off + j) (omega (arith, inside, lt)) in
                let from : s.mem (src + (off + j - off)) ≡ s.mem (src + j) =
                  ap s.mem (omega arith) in
                copied ∙ ap (content s'.ip s'.fs) there ∙ ground (arith, written, lt, from),
          )
    ]
