-- ===== src/Fs/Inode/OnDisk.antt =====
-- The disk inode: what `iupdate` writes is what `ilock` reads.
use os182_ass.Prelude.{
  ltb, leb, ◌==◌, if◌then◌else◌, ℕ, ◌+◌, ◌-◌, ◌*◌, ◌/◌, ◌%◌, ◌^◌, ◌≤◌, ◌<◌, ◌≡◌, refl, ap, ap₂, ◌∙◌,
  ◌≢◌, true, false, ◌&&◌, arith,
}
use os182_ass.Prelude.Outcome.{ok}
use os182_ass.Fs.{Superblock, Fs}
use os182_ass.Fs.Inode.{
  ndirect, ipb, iblock, Inode, byte_of, dinode_byte, store_bytes, iupdate, dinode_short,
  dinode_word, load_inode, ilock,
}

-- The fields fit into the disk inode.
pub record Fits (ip : Inode) : Type 0 where
  pub kind : ip.kind < 2 ^ 16
  pub major : ip.major < 2 ^ 16
  pub minor : ip.minor < 2 ^ 16
  pub nlink : ip.nlink < 2 ^ 16
  pub size : ip.size < 2 ^ 32
  pub addrs : (i : ℕ) → i ≤ ndirect → ip.addrs i < 2 ^ 32

short_bytes : (w : ℕ) → w < 2 ^ 16 → byte_of w 0 + 2 ^ 8 * byte_of w 1 ≡ w
short_bytes w lt = omega (arith, lt)

word_bytes :
    (w : ℕ)
    → w < 2 ^ 32
    → byte_of w 0 + 2 ^ 8 * byte_of w 1 + 2 ^ 16 * byte_of w 2 + 2 ^ 24 * byte_of w 3 ≡ w
word_bytes w lt = omega (arith, lt)

iupdate-byte :
    (sb : Superblock) (ip : Inode) (fs : Fs) (o x : ℕ)
    → o < 64
    → x ≡ ip.inum % ipb * 64 + o
    → (iupdate sb ip fs).blocks (iblock ip.inum sb) x ≡ dinode_byte ip o
unfolding iupdate store_bytes
iupdate-byte sb ip fs o x lt e =
    let place : x - ip.inum % ipb * 64 ≡ o = omega (arith, e) in
    let lo : leb (ip.inum % ipb * 64) x ≡ true = ground (arith, e) in
    let hi : ltb x (ip.inum % ipb * 64 + 64) ≡ true = ground (arith, e, lt) in
    let here : ((iblock ip.inum sb == iblock ip.inum sb)
          && leb (ip.inum % ipb * 64) x
          && ltb x (ip.inum % ipb * 64 + 64))
        ≡ true =
      ground (arith, lo, hi) in
    ap (λ t. if t then dinode_byte ip (x - ip.inum % ipb * 64) else fs.blocks (iblock ip.inum sb) x)
      here
    ∙ ap (dinode_byte ip) place

module _ (sb : Superblock) (ip : Inode) (fs : Fs) where
  short-iupdate :
      (o w : ℕ)
      → o < 63
      → w < 2 ^ 16
      → dinode_byte ip o ≡ byte_of w 0
      → dinode_byte ip (o + 1) ≡ byte_of w 1
      → dinode_short sb ip.inum (iupdate sb ip fs) o ≡ w
  short-iupdate o w lt small e0 e1 =
      ap₂ (λ a b. a + 2 ^ 8 * b)
        (iupdate-byte sb ip fs o (ip.inum % ipb * 64 + o) (omega (arith, lt)) refl ∙ e0)
        (iupdate-byte sb ip fs (o + 1) (ip.inum % ipb * 64 + o + 1) (omega (arith, lt))
            (omega arith)
          ∙ e1)
      ∙ short_bytes w small

  word-iupdate :
      (o w : ℕ)
      → o < 61
      → w < 2 ^ 32
      → ((j : ℕ) → j < 4 → dinode_byte ip (o + j) ≡ byte_of w j)
      → dinode_word sb ip.inum (iupdate sb ip fs) o ≡ w
  word-iupdate o w lt small same =
      let b0 =
        iupdate-byte sb ip fs (o + 0) (ip.inum % ipb * 64 + o) (omega (arith, lt)) (omega arith)
        ∙ same 0 (omega arith) in
      let b1 =
        iupdate-byte sb ip fs (o + 1) (ip.inum % ipb * 64 + o + 1) (omega (arith, lt)) (omega arith)
        ∙ same 1 (omega arith) in
      let b2 =
        iupdate-byte sb ip fs (o + 2) (ip.inum % ipb * 64 + o + 2) (omega (arith, lt)) (omega arith)
        ∙ same 2 (omega arith) in
      let b3 =
        iupdate-byte sb ip fs (o + 3) (ip.inum % ipb * 64 + o + 3) (omega (arith, lt)) (omega arith)
        ∙ same 3 (omega arith) in
      ap₂ (λ x y. x + y)
        (ap₂ (λ x y. x + y) (ap₂ (λ a b. a + 2 ^ 8 * b) b0 b1) (ap (λ b. 2 ^ 16 * b) b2))
        (ap (λ b. 2 ^ 24 * b) b3)
      ∙ word_bytes w small

size_bytes : (ip : Inode) (j : ℕ) → j < 4 → dinode_byte ip (8 + j) ≡ byte_of ip.size j
size_bytes ip j lt =
    let at : 8 + j - 8 ≡ j = omega arith in
    let not2 : ltb (8 + j) 2 ≡ false = ground arith in
    let not4 : ltb (8 + j) 4 ≡ false = ground arith in
    let not6 : ltb (8 + j) 6 ≡ false = ground arith in
    let not8 : ltb (8 + j) 8 ≡ false = ground arith in
    let is12 : ltb (8 + j) 12 ≡ true = ground (arith, lt) in
    rw (not2, not4, not6, not8, is12) (ap (byte_of ip.size) at)

addr_bytes :
    (ip : Inode) (i j : ℕ) → j < 4 → dinode_byte ip (12 + 4 * i + j) ≡ byte_of (ip.addrs i) j
addr_bytes ip i j lt =
    let word : (12 + 4 * i + j - 12) / 4 ≡ i = omega (arith, lt) in
    let place : (12 + 4 * i + j - 12) % 4 ≡ j = omega (arith, lt) in
    let not2 : ltb (12 + 4 * i + j) 2 ≡ false = ground arith in
    let not4 : ltb (12 + 4 * i + j) 4 ≡ false = ground arith in
    let not6 : ltb (12 + 4 * i + j) 6 ≡ false = ground arith in
    let not8 : ltb (12 + 4 * i + j) 8 ≡ false = ground arith in
    let not12 : ltb (12 + 4 * i + j) 12 ≡ false = ground arith in
    rw (not2, not4, not6, not8, not12) (ap₂ (λ a b. byte_of (ip.addrs a) b) word place)

-- The inode `got` has the contents of `ip`.
pub record SameInode (ip got : Inode) : Type 0 where
  pub valid : got.valid ≡ true
  pub kind : got.kind ≡ ip.kind
  pub major : got.major ≡ ip.major
  pub minor : got.minor ≡ ip.minor
  pub nlink : got.nlink ≡ ip.nlink
  pub size : got.size ≡ ip.size
  pub addrs : (i : ℕ) → i ≤ ndirect → got.addrs i ≡ ip.addrs i

-- `ilock` of an inode that is referenced and not valid, after `iupdate` of an inode of the same number
-- whose fields fit and whose type is not 0, reads all fields as they were written.
pub ilock-iupdate :
    (sb : Superblock) (ip : Inode) (ref : ℕ) (fs : Fs)
    → Fits ip
    → ip.kind ≢ 0
    → 0 < ref
    → (got : Inode) × (ilock sb (record ip { valid = false; ref = ref }) (iupdate sb ip fs)
        ≡ ok got)
      × SameInode ip got
unfolding ilock
ilock-iupdate sb ip ref fs fits used held =
    let kind = short-iupdate sb ip fs 0 ip.kind (omega arith) fits.kind refl refl in
    let no_panic : ltb ref 1 ≡ false = ground (arith, held) in
    let typed : (dinode_short sb ip.inum (iupdate sb ip fs) 0 == 0) ≡ false =
      ground (arith, kind, used) in
    (
      load_inode sb (record ip { valid = false; ref = ref }) (iupdate sb ip fs),
      rw (no_panic, typed) refl,
      record {
        valid = refl;
        kind = kind;
        major = short-iupdate sb ip fs 2 ip.major (omega arith) fits.major refl refl;
        minor = short-iupdate sb ip fs 4 ip.minor (omega arith) fits.minor refl refl;
        nlink = short-iupdate sb ip fs 6 ip.nlink (omega arith) fits.nlink refl refl;
        size = word-iupdate sb ip fs 8 ip.size (omega arith) fits.size (size_bytes ip);
        addrs = λ i le.
            word-iupdate sb ip fs (12 + 4 * i) (ip.addrs i) (omega (arith, le)) (fits.addrs i le)
              (addr_bytes ip i);
      },
    )
