-- ===== src/SwapDisk/Reading.antt =====
-- A page that is read from the swap file.
use os182_ass.Prelude.{
  ltb, leb, ℕ, ◌+◌, ◌-◌, ◌*◌, ◌^◌, ◌≤◌, ◌<◌, min, ◌≡◌, refl, ap, ◌∙◌, ◌⊎◌, inl, inr, true, ◌&&◌,
  arith,
}
use os182_ass.Prelude.Outcome.{ok}
use os182_ass.Strings.{Bytes}
use os182_ass.Memory.{Mem, pgsize}
use os182_ass.Fs.{bsize, Superblock}
use os182_ass.Fs.Inode.{Transfer}
use os182_ass.Fs.Inode.Content.{content}
use os182_ass.Fs.Inode.Read.{readi_lem}
use os182_ass.SwapDisk.{SwapDisk, read_from_swap_file, bytes_of, word_at, page_from, read_page}
use os182_ass.SwapDisk.Writing.{IsOpen, ilock-IsOpen}

-- The words of the page at `v` are those of the file from `offset` on; other words are as before.
pub record PageLoaded (v offset : ℕ) (d : SwapDisk) (m m' : Mem) : Type 0 where
  pub words : (k : ℕ) → k < 1024 → m' (v + 4 * k) ≡ word_at (content d.ip d.fs) (offset + 4 * k)
  pub others : (a : ℕ) → (a < v) ⊎ (v + pgsize ≤ a) → m' a ≡ m a

page_from-words :
    (b : Bytes) (c : ℕ → ℕ) (v offset : ℕ) (m : Mem)
    → ((x : ℕ) → x < pgsize → b (v + x) ≡ c (offset + x))
    → (k : ℕ) → k < 1024
    → page_from b v m (v + 4 * k) ≡ word_at c (offset + 4 * k)
unfolding page_from
page_from-words b c v offset m same k lt =
    let byte : (j : ℕ) → j < 4 → b (v + 4 * k + j) ≡ c (offset + 4 * k + j) =
      λ j l. ap b (omega arith) ∙ same (4 * k + j) (omega (arith, l, lt)) ∙ ap c (omega arith) in
    let first : b (v + 4 * k) ≡ c (offset + 4 * k) = same (4 * k) (omega (arith, lt)) in
    let inside : (leb v (v + 4 * k) && ltb (v + 4 * k) (v + pgsize)) ≡ true = ground (arith, lt) in
    rw (inside, first, byte 1 (omega arith), byte 2 (omega arith), byte 3 (omega arith)) refl

page_from-others :
    (b : Bytes) (v : ℕ) (m : Mem) (a : ℕ) → (a < v) ⊎ (v + pgsize ≤ a) → page_from b v m a ≡ m a
unfolding page_from
page_from-others b v m a out = ground (arith, out)

pub read_page-PageLoaded :
    (sb : Superblock) (v offset : ℕ) (m : Mem) (d : SwapDisk) (nb : ℕ)
    → IsOpen sb nb d.ip d.fs
    → offset + pgsize ≤ d.ip.size
    → d.ip.size ≤ bsize * nb
    → (m' : Mem) × (read_page sb v offset m d ≡ ok (m', d)) × PageLoaded v offset d m m'
unfolding read_page read_from_swap_file
read_page-PageLoaded sb v offset m d nb opened whole inside =
    let s : Transfer = record { mem = bytes_of m; ip = d.ip; fs = d.fs } in
    let word : offset + pgsize < 2 ^ 32 = omega (arith, whole, inside, opened.mapped.in_range) in
    elim (readi_lem sb v offset pgsize s nb opened.mapped inside word) [
      | inl (behind, _) ↦ absurd (omega (arith, behind, whole))
      | inr (le, b, reads, bytes) ↦
          let all : min pgsize (d.ip.size - offset) ≡ pgsize = omega (arith, whole) in
          let byte : (x : ℕ) → x < pgsize → b (v + x) ≡ content d.ip d.fs (offset + x) = λ x lt.
            let back : content d.ip d.fs (offset + (v + x - v)) ≡ content d.ip d.fs (offset + x) =
              ap (content d.ip d.fs) (omega arith) in
            ground (arith, bytes (v + x), all, lt, back) in
          (
            page_from b v m,
            rw (ilock-IsOpen sb nb d.ip d.fs opened, reads) refl,
            record {
              words = page_from-words b (content d.ip d.fs) v offset m byte;
              others = page_from-others b v m;
            },
          )
    ]
