-- ===== src/Fs/Inode/Round.antt =====
-- One round of `writei`, inside the blocks of a file.
use mathlib.Core.Path.{fun_ext}
use os182_ass.Prelude.{
  ltb, leb, if◌then◌else◌, Bool-cases, ℕ, ◌+◌, ◌-◌, ◌*◌, ◌/◌, ◌%◌, ◌<◌, ◌≡◌, refl, sym, ap, ◌∙◌,
  ◌≢◌, inl, inr, false, ◌&&◌, arith, dec_lt, dec_le, ℕ_discrete,
}
use os182_ass.Fs.{bsize, Superblock, Fs}
use os182_ass.Fs.Inode.{ndirect, Inode, get_word, store_bytes, chunk}
use os182_ass.Fs.Inode.Content.{file_block, content, IsMapped, AreApart, same_block}

-- The bytes `f` were written to the file from `off` on, `n` of them, and nothing else.
pub record Written (ip : Inode) (nb off n : ℕ) (f : ℕ → ℕ) (fs fs' : Fs) : Type 0 where
  pub same_blocks : (b : ℕ) → b < nb → file_block ip fs' b ≡ file_block ip fs b
  pub others : (d : ℕ) → ((b : ℕ) → b < nb → file_block ip fs b ≢ d) → fs'.blocks d ≡ fs.blocks d
  pub bytes :
      (o : ℕ)
      → o < bsize * nb
      → content ip fs' o ≡ (if leb off o && ltb o (off + n) then f (o - off) else content ip fs o)

pub IsMapped-same :
    {ip : Inode} {fs fs' : Fs} {nb : ℕ}
    → ((b : ℕ) → b < nb → file_block ip fs' b ≡ file_block ip fs b)
    → IsMapped ip fs nb
    → IsMapped ip fs' nb
IsMapped-same same mapped = record {
  in_range = mapped.in_range;
  there = λ b lt e. mapped.there b lt (sym (same b lt) ∙ e);
  indirect_there = mapped.indirect_there;
}

pub AreApart-same :
    {sb : Superblock} {ip : Inode} {fs fs' : Fs} {nb : ℕ}
    → ((b : ℕ) → b < nb → file_block ip fs' b ≡ file_block ip fs b)
    → AreApart sb ip fs nb
    → AreApart sb ip fs' nb
AreApart-same same apart = record {
  different = λ b c lb lc e. apart.different b c lb lc (sym (same b lb) ∙ e ∙ same c lc);
  not_indirect = λ b lb more e. apart.not_indirect b lb more (sym (same b lb) ∙ e);
  not_inode = λ b lb e. apart.not_inode b lb (sym (same b lb) ∙ e);
  indirect_not_inode = apart.indirect_not_inode;
}

pub store_bytes-other :
    (a off n : ℕ) (c : ℕ → ℕ) (fs : Fs) (d : ℕ)
    → d ≢ a
    → (store_bytes a off n c fs).blocks d ≡ fs.blocks d
unfolding store_bytes
store_bytes-other a off n c fs d ne = fun_ext (λ o. ground (arith, ne))

store_bytes-here :
    (a off n : ℕ) (c : ℕ → ℕ) (fs : Fs) (o : ℕ)
    → (store_bytes a off n c fs).blocks a o
      ≡ (if leb off o && ltb o (off + n) then c (o - off) else fs.blocks a o)
unfolding store_bytes
store_bytes-here a off n c fs o = ground arith

-- A block that holds no addresses of the file can change without the file's blocks changing.
pub file_block-same :
    (ip : Inode) (fs fs' : Fs) (nb b : ℕ)
    → b < nb
    → (ndirect < nb → fs'.blocks (ip.addrs ndirect) ≡ fs.blocks (ip.addrs ndirect))
    → file_block ip fs' b ≡ file_block ip fs b
file_block-same ip fs fs' nb b lt same = elim (Bool-cases (ltb b ndirect)) [
  | inl direct ↦ rw direct refl
  | inr indirect ↦
      rw indirect (ap (λ c. get_word c (b - ndirect)) (same (ground (arith, indirect, lt))))
]

-- A round in the block of byte `o`, and in another block.
in_block :
    (f : ℕ → ℕ) (off k o x : ℕ)
    → o / bsize ≡ off / bsize
    → (if leb (off % bsize) (o % bsize) && ltb (o % bsize) (off % bsize + k)
        then f (o % bsize - off % bsize)
        else x)
      ≡ (if leb off o && ltb o (off + k) then f (o - off) else x)
in_block f off k o x e =
    let at : f (o % bsize - off % bsize) ≡ f (o - off) = ap f (omega (arith, e)) in
    let lo : leb (off % bsize) (o % bsize) ≡ leb off o = ground (arith, e) in
    let hi : ltb (o % bsize) (off % bsize + k) ≡ ltb o (off + k) = ground (arith, e) in
    rw (at, lo, hi) refl

not_in_block :
    (left off o : ℕ) → o / bsize ≢ off / bsize → (leb off o && ltb o (off + chunk left off)) ≡ false
not_in_block left off o ne = elim (dec_le off o) [
  | no before ↦ ground (arith, before)
  | yes from ↦ elim (dec_lt o (off + chunk left off)) [
    | no behind ↦ ground (arith, behind)
    | yes inside ↦
        let j : off + (o - off) ≡ o = omega (arith, from) in
        absurd (
          ne (
            ap (λ x. x / bsize) (sym j)
            ∙ (same_block left off (o - off) (omega (arith, from, inside))).0))
  ]
]

-- One round of `writei`.
pub store-Written :
    {sb : Superblock} {ip : Inode} {fs : Fs} {nb : ℕ} (left off : ℕ) (f : ℕ → ℕ)
    → AreApart sb ip fs nb
    → off < bsize * nb
    → Written ip nb off
        (chunk left off)
        f
        fs
        (store_bytes (file_block ip fs (off / bsize)) (off % bsize) (chunk left off) f fs)
store-Written {sb} {ip} {fs} {nb} left off f apart lt = record {
  same_blocks = same;
  others = λ d not_file.
      store_bytes-other a (off % bsize) k f fs d (λ e. not_file (off / bsize) bn_lt (sym e));
  bytes = bytes;
}
  where
    k : ℕ
    k = chunk left off

    a : ℕ
    a = file_block ip fs (off / bsize)

    bn_lt : off / bsize < nb
    bn_lt = omega (arith, lt)

    same :
        (b : ℕ) → b < nb → file_block ip (store_bytes a (off % bsize) k f fs) b ≡ file_block ip fs b
    same b bl = file_block-same ip fs (store_bytes a (off % bsize) k f fs) nb b bl (λ more.
        store_bytes-other a (off % bsize) k f fs (ip.addrs ndirect)
          (λ e. apart.not_indirect (off / bsize) bn_lt more (sym e)))

    moved :
        (o : ℕ)
        → o < bsize * nb
        → content ip (store_bytes a (off % bsize) k f fs) o
          ≡ (store_bytes a (off % bsize) k f fs).blocks (file_block ip fs (o / bsize)) (o % bsize)
    moved o ol =
        ap (λ b. (store_bytes a (off % bsize) k f fs).blocks b (o % bsize))
          (same (o / bsize) (omega (arith, ol)))

    bytes :
        (o : ℕ)
        → o < bsize * nb
        → content ip (store_bytes a (off % bsize) k f fs) o
          ≡ (if leb off o && ltb o (off + k) then f (o - off) else content ip fs o)
    bytes o ol = elim (ℕ_discrete (o / bsize) (off / bsize)) [
      | yes e ↦
          moved o ol
          ∙ ap (λ b. (store_bytes a (off % bsize) k f fs).blocks (file_block ip fs b) (o % bsize)) e
          ∙ store_bytes-here a (off % bsize) k f fs (o % bsize)
          ∙ in_block f off k o (fs.blocks a (o % bsize)) e
          ∙ ap
              (λ b.
                if leb off o && ltb o (off + k)
                then f (o - off)
                else fs.blocks (file_block ip fs b) (o % bsize))
              (sym e)
      | no ne ↦
          let away : file_block ip fs (o / bsize) ≢ a =
            λ e. ne (apart.different (o / bsize) (off / bsize) (omega (arith, ol)) bn_lt e) in
          moved o ol
          ∙ ap (λ c. c (o % bsize))
              (store_bytes-other a (off % bsize) k f fs (file_block ip fs (o / bsize)) away)
          ∙ sym (ap (λ t. if t then f (o - off) else content ip fs o) (not_in_block left off o ne))
    ]
