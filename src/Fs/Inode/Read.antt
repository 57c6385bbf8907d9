-- ===== src/Fs/Inode/Read.antt =====
-- `readi` of a file whose blocks are there.
use os182_ass.Prelude.{
  ltb, leb, ◌==◌, if◌then◌else◌, Bool-cases, ℕ, zero, suc, ◌+◌, ◌-◌, ◌*◌, ◌/◌, ◌%◌, ◌^◌, ◌≤◌, ◌<◌,
  min, ◌≡◌, refl, sym, ap, ap₂, ◌∙◌, ◌⊎◌, inl, inr, false, ◌&&◌, ◌||◌, none, some, arith, dec_le,
  ℕ_discrete,
}
use os182_ass.Prelude.Outcome.{ok}
use os182_ass.Strings.{Bytes}
use os182_ass.Fs.{bsize, Superblock, Fs}
use os182_ass.Fs.Inode.{Inode, Transfer, copy_to, chunk, readi_loop, readi}
use os182_ass.Fs.Inode.Content.{
  file_block, content, IsMapped, bmap-IsMapped, same_block, chunk-bounds,
}

-- The memory after `n` bytes of the file from `off` on were copied to `dst`.
abbrev pub Copied : Inode → Fs → ℕ → ℕ → ℕ → Bytes → Bytes → Type 0
Copied ip fs dst off n m m' =
    (x : ℕ) → m' x ≡ (if leb dst x && ltb x (dst + n) then content ip fs (off + (x - dst)) else m x)

-- `k` bytes at `dst`, and the rest behind them.
copy_to-join :
    (f g : ℕ → ℕ) (dst k left : ℕ) (m m' : Bytes)
    → k ≤ left
    → ((j : ℕ) → j < k → g j ≡ f j)
    → ((x : ℕ)
        → m' x ≡ (
            if leb (dst + k) x && ltb x (dst + k + (left - k))
            then f (k + (x - (dst + k)))
            else copy_to dst k g m x))
    → (x : ℕ) → m' x ≡ (if leb dst x && ltb x (dst + left) then f (x - dst) else m x)
unfolding copy_to
copy_to-join f g dst k left m m' le same rest x = elim (dec_le (dst + k) x) [
  | yes later ↦
      let at : f (k + (x - (dst + k))) ≡ f (x - dst) = ap f (omega (arith, later)) in
      ground (arith, rest x, at, later, le)
  | no sooner ↦ elim (dec_le dst x) [
    | yes now ↦ ground (arith, rest x, same (x - dst) (omega (arith, now, sooner)), now, sooner, le)
    | no before ↦ ground (arith, rest x, before, sooner, le)
  ]
]

-- One round before the others.
Copied-round :
    (ip : Inode) (fs : Fs) (dst off left : ℕ) (m m' : Bytes)
    → 0 < left
    → Copied ip fs
        (dst + chunk left off)
        (off + chunk left off)
        (left - chunk left off)
        (copy_to dst
          (chunk left off)
          (λ j. fs.blocks (file_block ip fs (off / bsize)) (off % bsize + j))
          m)
        m'
    → Copied ip fs dst off left m m'
Copied-round ip fs dst off left m m' pos rest =
    let k = chunk left off in
    copy_to-join (λ j. content ip fs (off + j))
      (λ j. fs.blocks (file_block ip fs (off / bsize)) (off % bsize + j)) dst k left m m'
      (chunk-bounds left off pos).1
      (λ j lt.
        let (block, place) = same_block left off j lt in
        sym (ap₂ (λ b o. fs.blocks (file_block ip fs b) o) block place))
      (λ x.
        rest x
        ∙ ap
            (λ y.
              if leb (dst + k) x && ltb x (dst + k + (left - k))
              then content ip fs y
              else copy_to dst k (λ j. fs.blocks (file_block ip fs (off / bsize)) (off % bsize + j))
                  m x)
            (omega arith))

readi_loop-Copied :
    (fuel : ℕ) (sb : Superblock) (left off dst : ℕ) (s : Transfer) (nb : ℕ)
    → left ≤ fuel
    → IsMapped s.ip s.fs nb
    → off + left ≤ bsize * nb
    → (m' : Bytes) × (readi_loop fuel sb left off dst s ≡ ok (record s { mem = m' }))
      × Copied s.ip s.fs dst off left s.mem m'
unfolding readi_loop
readi_loop-Copied zero sb left off dst s nb le mapped inside =
    let none_left : left ≡ 0 = omega (arith, le) in
    (s.mem, ground (arith, none_left), λ x. ground (arith, none_left))
readi_loop-Copied (suc fuel) sb left off dst s nb le mapped inside = elim (ℕ_discrete left 0) [
  | yes none_left ↦ (s.mem, ground (arith, none_left), λ x. ground (arith, none_left))
  | no more ↦
      let k = chunk left off in
      let (some_bytes, fits) = chunk-bounds left off (omega (arith, more)) in
      let block = bmap-IsMapped sb (off / bsize) s.ip s.fs mapped (omega (arith, inside, more)) in
      let copied =
        copy_to dst k (λ j. s.fs.blocks (file_block s.ip s.fs (off / bsize)) (off % bsize + j))
          s.mem in
      let (m', runs, bytes) =
        readi_loop-Copied fuel sb (left - k) (off + k) (dst + k) (record s { mem = copied }) nb
          (omega (arith, le, some_bytes)) mapped (omega (arith, inside, fits)) in
      let go : (left == 0) ≡ false = ground (arith, more) in
      (
        m',
        rw (go, block) runs,
        Copied-round s.ip s.fs dst off left s.mem m' (omega (arith, more)) bytes,
      )
]

readi-runs :
    (sb : Superblock) (dst off n k : ℕ) (s : Transfer) {s' : Transfer}
    → (ltb s.ip.size off || leb (2 ^ 32) (off + n)) ≡ false
    → (if ltb s.ip.size (off + n) then s.ip.size - off else n) ≡ k
    → readi_loop k sb k off dst s ≡ ok s'
    → readi sb dst off n s ≡ ok (some k, s')
unfolding readi
readi-runs sb dst off n k s no_wrap count runs = rw (no_wrap, count, runs, readi) refl

-- When the blocks of the file are there up to its end, and `off + n` does not wrap in a `uint`,
-- `readi` from an offset in the file copies the bytes of the file to the memory from `dst` on, up to `n` of them or to the end of the file, returns
-- their number, and changes nothing else. Behind the end it returns -1.
pub readi_lem :
    (sb : Superblock) (dst off n : ℕ) (s : Transfer) (nb : ℕ)
    → IsMapped s.ip s.fs nb
    → s.ip.size ≤ bsize * nb
    → off + n < 2 ^ 32
    → ((s.ip.size < off) × (readi sb dst off n s ≡ ok (none, s)))
      ⊎ ((off ≤ s.ip.size)
          × (m' : Bytes) × (readi sb dst off n s
              ≡ ok (some (min n (s.ip.size - off)), record s { mem = m' }))
          × Copied s.ip s.fs dst off (min n (s.ip.size - off)) s.mem m')
unfolding readi
readi_lem sb dst off n s nb mapped whole word = elim (Bool-cases (ltb s.ip.size off)) [
  | inl behind ↦ inl (ground (arith, behind), rw (behind, readi) refl)
  | inr in_file ↦
      let le : off ≤ s.ip.size = ground (arith, in_file) in
      let no_wrap : (ltb s.ip.size off || leb (2 ^ 32) (off + n)) ≡ false =
        ground (arith, in_file, word) in
      let count : (if ltb s.ip.size (off + n) then s.ip.size - off else n)
          ≡ min n (s.ip.size - off) =
        ground (arith, le) in
      let (m', runs, bytes) =
        readi_loop-Copied (min n (s.ip.size - off)) sb (min n (s.ip.size - off)) off dst s nb
          (omega arith) mapped (omega (arith, le, whole)) in
      inr (le, m', readi-runs sb dst off n (min n (s.ip.size - off)) s no_wrap count runs, bytes)
]
