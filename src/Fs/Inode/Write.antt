-- ===== src/Fs/Inode/Write.antt =====
-- `writei` inside the blocks of a file.
use mathlib.Core.Path.{fun_ext}
use os182_ass.Prelude.{
  ◌==◌, ℕ, zero, suc, ◌+◌, ◌-◌, ◌*◌, ◌/◌, ◌%◌, ◌≤◌, ◌<◌, ◌≡◌, refl, sym, ap, ◌∙◌, subst, false,
  arith, dec_le, ℕ_discrete,
}
use os182_ass.Prelude.Outcome.{ok}
use os182_ass.Fs.{bsize, Superblock, Fs}
use os182_ass.Fs.Inode.{Inode, store_bytes, Transfer, chunk, writei_loop}
use os182_ass.Fs.Inode.Content.{file_block, IsMapped, AreApart, bmap-IsMapped, chunk-bounds}
use os182_ass.Fs.Inode.Round.{Written, IsMapped-same, AreApart-same, store-Written}

Written-join :
    {ip : Inode} {nb off k left : ℕ} {f : ℕ → ℕ} {fs fs1 fs2 : Fs}
    → k ≤ left
    → Written ip nb off k f fs fs1
    → Written ip nb (off + k) (left - k) (λ j. f (k + j)) fs1 fs2
    → Written ip nb off left f fs fs2
Written-join {ip} {nb} {off} {k} {left} {f} {fs} {fs1} {fs2} le one more = record {
  same_blocks = λ b lt. more.same_blocks b lt ∙ one.same_blocks b lt;
  others = λ d not_file.
      more.others d (λ b lt e. not_file b lt (sym (one.same_blocks b lt) ∙ e))
      ∙ one.others d not_file;
  bytes = λ o ol. elim (dec_le (off + k) o) [
    | yes later ↦
        let at : f (k + (o - (off + k))) ≡ f (o - off) = ap f (omega (arith, later)) in
        ground (arith, more.bytes o ol, at, later, le, one.bytes o ol)
    | no sooner ↦ ground (arith, more.bytes o ol, sooner, le, one.bytes o ol)
  ];
}

Written-none : (ip : Inode) (nb off : ℕ) (f : ℕ → ℕ) (fs : Fs) → Written ip nb off 0 f fs fs
Written-none ip nb off f fs = record {
  same_blocks = λ b lt. refl;
  others = λ d n. refl;
  bytes = λ o ol. ground arith;
}

pub writei_loop-Written :
    (fuel : ℕ) (sb : Superblock) (left off src : ℕ) (s : Transfer) (nb : ℕ)
    → left ≤ fuel
    → IsMapped s.ip s.fs nb
    → AreApart sb s.ip s.fs nb
    → off + left ≤ bsize * nb
    → (fs' : Fs) × (writei_loop fuel sb left off src s ≡ ok (record s { fs = fs' }))
      × Written s.ip nb off left (λ j. s.mem (src + j)) s.fs fs'
unfolding writei_loop
writei_loop-Written zero sb left off src s nb le mapped apart inside =
    let none_left : 0 ≡ left = omega (arith, le) in
    (
      s.fs,
      ground (arith, none_left),
      subst (λ n. Written s.ip nb off n (λ j. s.mem (src + j)) s.fs s.fs) none_left
          (Written-none s.ip nb off (λ j. s.mem (src + j)) s.fs),
    )
writei_loop-Written (suc fuel) sb left off src s nb le mapped apart inside =
    elim (ℕ_discrete left 0) [
      | yes none_left ↦ (
        s.fs,
        ground (arith, none_left),
        subst (λ n. Written s.ip nb off n (λ j. s.mem (src + j)) s.fs s.fs) (sym none_left)
            (Written-none s.ip nb off (λ j. s.mem (src + j)) s.fs),
      )
      | no more ↦
          let k = chunk left off in
          let (some_bytes, fits) = chunk-bounds left off (omega (arith, more)) in
          let in_file : off < bsize * nb = omega (arith, inside, more) in
          let block = bmap-IsMapped sb (off / bsize) s.ip s.fs mapped (omega (arith, in_file)) in
          let fs1 =
            store_bytes (file_block s.ip s.fs (off / bsize)) (off % bsize) k (λ j. s.mem (src + j))
              s.fs in
          let one = store-Written left off (λ j. s.mem (src + j)) apart in_file in
          let (fs2, runs, rest) =
            writei_loop-Written fuel sb (left - k) (off + k) (src + k) (record s { fs = fs1 }) nb
              (omega (arith, le, some_bytes)) (IsMapped-same one.same_blocks mapped)
              (AreApart-same one.same_blocks apart) (omega (arith, inside, fits)) in
          let go : (left == 0) ≡ false = ground (arith, more) in
          let shifted : (λ j. s.mem (src + k + j)) ≡ (λ j. s.mem (src + (k + j))) =
            fun_ext (λ j. ap s.mem (omega arith)) in
          (
            fs2,
            rw (go, block) runs,
            Written-join fits one
                (subst (λ g. Written s.ip nb (off + k) (left - k) g fs1 fs2) shifted rest),
          )
    ]
