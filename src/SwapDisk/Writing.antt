-- ===== src/SwapDisk/Writing.antt =====
-- A page that is written to the swap file.
use os182_ass.Prelude.{
  ltb, leb, ◌==◌, if◌then◌else◌, ℕ, zero, suc, ◌+◌, ◌-◌, ◌*◌, ◌≤◌, ◌<◌, min, ◌≡◌, refl, sym, ap,
  ◌∙◌, subst, ◌⊎◌, true, false, ◌&&◌, arith, dec_le, ℕ_discrete,
}
use os182_ass.Prelude.Outcome.{ok}
use os182_ass.Memory.{Mem, pgsize}
use os182_ass.Fs.{bsize, Superblock, Fs}
use os182_ass.Fs.Inode.{Inode, ilock, Transfer}
use os182_ass.Fs.Inode.Content.{content, IsMapped, AreApart}
use os182_ass.Fs.Inode.Writei.{writei_lem}
use os182_ass.SwapDisk.{
  SwapDisk, max_write, filewrite_loop, write_to_swap_file, bytes_of, write_page,
}

-- The swap file is open, its inode is in memory, and its first `nb` blocks are there and apart.
pub record IsOpen (sb : Superblock) (nb : ℕ) (ip : Inode) (fs : Fs) : Type 0 where
  pub used : 0 < ip.ref
  pub loaded : ip.valid ≡ true
  pub mapped : IsMapped ip fs nb
  pub apart : AreApart sb ip fs nb

pub ilock-IsOpen :
    (sb : Superblock) (nb : ℕ) (ip : Inode) (fs : Fs) → IsOpen sb nb ip fs → ilock sb ip fs ≡ ok ip
unfolding ilock
ilock-IsOpen sb nb ip fs o =
    let used : ltb ip.ref 1 ≡ false = ground (arith, o.used) in rw (o.loaded, used, ilock) refl

-- `n` bytes of the memory from `src` on are in the file from `off` on; its other bytes are as before.
pub record Stored (sb : Superblock) (nb src off n : ℕ) (s s' : Transfer) : Type 0 where
  pub same_mem : s'.mem ≡ s.mem
  pub open_file : IsOpen sb nb s'.ip s'.fs
  pub size : s'.ip.size ≡ (if ltb s.ip.size (off + n) then off + n else s.ip.size)
  pub bytes :
      (o : ℕ)
      → o < bsize * nb
      → content s'.ip s'.fs o
        ≡ (if leb off o && ltb o (off + n) then s.mem (src + (o - off)) else content s.ip s.fs o)

-- The first `k` bytes, and then the others.
bytes-join :
    (src off k left : ℕ) (f g h m : ℕ → ℕ) (o : ℕ)
    → k ≤ left
    → g o ≡ (if leb off o && ltb o (off + k) then m (src + (o - off)) else f o)
    → h o ≡ (
        if leb (off + k) o && ltb o (off + k + (left - k))
        then m (src + k + (o - (off + k)))
        else g o)
    → h o ≡ (if leb off o && ltb o (off + left) then m (src + (o - off)) else f o)
bytes-join src off k left f g h m o le first rest = elim (dec_le (off + k) o) [
  | yes later ↦
      let at : m (src + k + (o - (off + k))) ≡ m (src + (o - off)) = ap m (omega (arith, later)) in
      ground (arith, first, rest, at, later, le)
  | no sooner ↦ ground (arith, first, rest, sooner, le)
]

filewrite_loop-Stored :
    (fuel : ℕ) (sb : Superblock) (left off src : ℕ) (s : Transfer) (nb : ℕ)
    → left ≤ fuel
    → IsOpen sb nb s.ip s.fs
    → off ≤ s.ip.size
    → off + left ≤ bsize * nb
    → (s' : Transfer) × (filewrite_loop fuel sb left off src s ≡ ok (true, s'))
      × Stored sb nb src off left s s'
unfolding filewrite_loop
filewrite_loop-Stored zero sb left off src s nb le opened in_file inside =
    let none_left : left ≡ 0 = omega (arith, le) in
    (
      s,
      ground (arith, none_left),
      record {
        same_mem = refl;
        open_file = opened;
        size = ground (arith, none_left, in_file);
        bytes = λ o lt. ground (arith, none_left);
      },
    )
filewrite_loop-Stored (suc fuel) sb left off src s nb le opened in_file inside =
    elim (ℕ_discrete left 0) [
      | yes none_left ↦ (
        s,
        ground (arith, none_left),
        record {
          same_mem = refl;
          open_file = opened;
          size = ground (arith, none_left, in_file);
          bytes = λ o lt. ground (arith, none_left);
        },
      )
      | no more ↦
          let n1 = min left max_write in
          let (s1, writes, w) =
            writei_lem sb src off n1 s nb opened.mapped opened.apart in_file
              (omega (arith, inside)) in
          let opened1 : IsOpen sb nb s1.ip s1.fs = record {
            used = subst (λ x. 0 < x) (sym w.same_ref) opened.used;
            loaded = w.same_valid ∙ opened.loaded;
            mapped = w.mapped;
            apart = w.apart;
          } in
          let (s2, runs, r) =
            filewrite_loop-Stored fuel sb (left - n1) (off + n1) (src + n1) s1 nb
              (omega (arith, le, more)) opened1 (ground (arith, w.size)) (omega (arith, inside)) in
          let go : (left == 0) ≡ false = ground (arith, more) in
          let all : (n1 == n1) ≡ true = ground arith in
          (
            s2,
            rw (go, ilock-IsOpen sb nb s.ip s.fs opened, writes, all) runs,
            record {
              same_mem = r.same_mem ∙ w.same_mem;
              open_file = r.open_file;
              size = ground (arith, r.size, w.size, more);
              bytes = λ o lt.
                  bytes-join src off n1 left (content s.ip s.fs) (content s1.ip s1.fs)
                    (content s2.ip s2.fs) s.mem o (omega arith) (w.bytes o lt)
                    (r.bytes o lt
                      ∙ ap
                          (λ m.
                            if leb (off + n1) o && ltb o (off + n1 + (left - n1))
                            then m (src + n1 + (o - (off + n1)))
                            else content s1.ip s1.fs o)
                          w.same_mem);
            },
          )
    ]

-- The page at `v` of the memory `m` is in the file at `offset`, and its other bytes are as before.
pub record PageStored (sb : Superblock) (nb v offset : ℕ) (m : Mem) (d d' : SwapDisk) : Type 0 where
  pub open_file : IsOpen sb nb d'.ip d'.fs
  pub saved : (o : ℕ) → o < pgsize → content d'.ip d'.fs (offset + o) ≡ bytes_of m (v + o)
  pub kept :
      (o : ℕ)
      → o < bsize * nb
      → (o < offset) ⊎ (offset + pgsize ≤ o)
      → content d'.ip d'.fs o ≡ content d.ip d.fs o
  pub reaches : offset + pgsize ≤ d'.ip.size
  pub grows : d.ip.size ≤ d'.ip.size

pub write_page-PageStored :
    (sb : Superblock) (v offset : ℕ) (m : Mem) (d : SwapDisk) (nb : ℕ)
    → IsOpen sb nb d.ip d.fs
    → offset ≤ d.ip.size
    → offset + pgsize ≤ bsize * nb
    → (d' : SwapDisk) × (write_page sb v offset m d ≡ ok d') × PageStored sb nb v offset m d d'
unfolding write_page write_to_swap_file
write_page-PageStored sb v offset m d nb opened in_file inside =
    let s : Transfer = record { mem = bytes_of m; ip = d.ip; fs = d.fs } in
    let (t, runs, w) =
      filewrite_loop-Stored pgsize sb pgsize offset v s nb (omega arith) opened in_file inside in
    (
      record { ip = t.ip; fs = t.fs },
      rw (runs) refl,
      record {
        open_file = w.open_file;
        saved = λ o lt.
            let at : bytes_of m (v + (offset + o - offset)) ≡ bytes_of m (v + o) =
              ap (bytes_of m) (omega arith) in
            ground (arith, w.bytes (offset + o) (omega (arith, lt, inside)), at, lt);
        kept = λ o lt out. ground (arith, w.bytes o lt, out);
        reaches = ground (arith, w.size);
        grows = ground (arith, w.size);
      },
    )
