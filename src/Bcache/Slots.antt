-- ===== src/Bcache/Slots.antt =====
-- The change of one buffer keeps the cache coherent and what it shows.
use os182_ass.Prelude.{ℕ, ◌≡◌, refl, sym, ◌∙◌, subst, ◌≢◌, true, false, arith, ℕ_discrete}
use os182_ass.Disk.{Blocks}
use os182_ass.Bcache.{Buf, Cache, put_buf}
use os182_ass.Bcache.View.{view, listed, IsCoherent, view_same}

-- Buffer `b` may stand in slot `s` over the disk `disk`.
pub record Fits (c : Cache) (disk : Blocks) (s : ℕ) (b : Buf) : Type 0 where
  pub in_list : b.dev ≡ 1 → listed s c.order ≡ true
  pub alone : (t : ℕ) → t ≢ s → b.dev ≡ 1 → (c.bufs t).dev ≡ 1 → (c.bufs t).blockno ≢ b.blockno
  pub on_disk : b.valid ≡ true → b.dev ≡ 1
  pub agrees : b.valid ≡ true → b.dirty ≡ false → b.contents ≡ disk b.blockno
  pub dirty_valid : b.dirty ≡ true → b.valid ≡ true
  pub others :
      (t : ℕ) → t ≢ s → (c.bufs t).dev ≡ 1 → disk (c.bufs t).blockno ≡ c.disk (c.bufs t).blockno

pub put_buf_self : (s : ℕ) (b : Buf) (c : Cache) → (put_buf s b c).bufs s ≡ b
unfolding put_buf
put_buf_self s b c = ground arith

pub put_buf_ne : (s : ℕ) (b : Buf) (c : Cache) (t : ℕ) → t ≢ s → (put_buf s b c).bufs t ≡ c.bufs t
unfolding put_buf
put_buf_ne s b c t ne = ground (arith, ne)

-- A property of the slots holds after `put_buf` when it holds of the new buffer and of the others.
pub put_buf-at :
    (P : ℕ → Buf → Type 0) (s : ℕ) (b : Buf) (c : Cache)
    → P s b
    → ((t : ℕ) → t ≢ s → P t (c.bufs t))
    → (t : ℕ) → P t ((put_buf s b c).bufs t)
put_buf-at P s b c new old t = elim (ℕ_discrete t s) [
  | yes same ↦
      subst (λ x. P x ((put_buf s b c).bufs x)) (sym same)
        (subst (P s) (sym (put_buf_self s b c)) new)
  | no ne ↦ subst (P t) (sym (put_buf_ne s b c t ne)) (old t ne)
]

pub put_buf-IsCoherent :
    {c : Cache} (disk : Blocks) (s : ℕ) (b : Buf)
    → IsCoherent c
    → Fits c disk s b
    → IsCoherent (record (put_buf s b c) { disk = disk })
unfolding put_buf
put_buf-IsCoherent {c} disk s b ok_c fits = record {
  in_list =
      put_buf-at (λ t x. x.dev ≡ 1 → listed t c.order ≡ true) s b c fits.in_list
        (λ t ne. ok_c.in_list t);
  single =
      put_buf-at
        (λ t x.
          (u : ℕ)
          → x.dev ≡ 1
          → ((put_buf s b c).bufs u).dev ≡ 1
          → x.blockno ≡ ((put_buf s b c).bufs u).blockno
          → t ≡ u)
        s b c
        (put_buf-at (λ u y. b.dev ≡ 1 → y.dev ≡ 1 → b.blockno ≡ y.blockno → s ≡ u) s b c
          (λ d d' e. refl) (λ u ne d d' e. absurd (fits.alone u ne d d' (sym e))))
        (λ t ne.
          put_buf-at
            (λ u y. (c.bufs t).dev ≡ 1 → y.dev ≡ 1 → (c.bufs t).blockno ≡ y.blockno → t ≡ u) s b c
            (λ d d' e. absurd (fits.alone t ne d' d e)) (λ u nu. ok_c.single t u));
  on_disk =
      put_buf-at (λ t x. x.valid ≡ true → x.dev ≡ 1) s b c fits.on_disk (λ t ne. ok_c.on_disk t);
  agrees =
      put_buf-at (λ t x. x.valid ≡ true → x.dirty ≡ false → x.contents ≡ disk x.blockno) s b c
        fits.agrees (λ t ne v d. ok_c.agrees t v d ∙ sym (fits.others t ne (ok_c.on_disk t v)));
  dirty_valid =
      put_buf-at (λ t x. x.dirty ≡ true → x.valid ≡ true) s b c fits.dirty_valid
        (λ t ne. ok_c.dirty_valid t);
}

-- A buffer that keeps its block stays the only one.
pub stays_alone :
    {c : Cache} (s : ℕ)
    → IsCoherent c
    → (t : ℕ) → t ≢ s
    → (c.bufs s).dev ≡ 1
    → (c.bufs t).dev ≡ 1
    → (c.bufs t).blockno ≢ (c.bufs s).blockno
stays_alone s ok_c t ne d d' e = ne (ok_c.single t s d' d e)

pub put_buf-disk : (s : ℕ) (b : Buf) (c : Cache) (a : ℕ) → (put_buf s b c).disk a ≡ c.disk a
unfolding put_buf
put_buf-disk s b c a = refl

-- A change of a buffer that leaves the dirty contents alone changes nothing that the cache shows.
pub view-put_buf :
    {c : Cache} (s : ℕ) (b : Buf)
    → IsCoherent c
    → IsCoherent (put_buf s b c)
    → b.dirty ≡ (c.bufs s).dirty
    → ((c.bufs s).dirty ≡ true
        → (b.blockno ≡ (c.bufs s).blockno) × (b.contents ≡ (c.bufs s).contents))
    → (a : ℕ) → view (put_buf s b c) a ≡ view c a
view-put_buf {c} s b ok_c ok_c' dirt keeps =
    view_same c (put_buf s b c) ok_c ok_c' (put_buf-disk s b c)
      (put_buf-at (λ t x. x.dirty ≡ (c.bufs t).dirty) s b c dirt (λ t ne. refl))
      (put_buf-at
        (λ t x.
          (c.bufs t).dirty ≡ true
          → (x.blockno ≡ (c.bufs t).blockno) × (x.contents ≡ (c.bufs t).contents))
        s b c keeps (λ t ne d. (refl, refl)))

pub put_buf-stays :
    {c : Cache} (s : ℕ) (b : Buf) → IsCoherent c → Fits c c.disk s b → IsCoherent (put_buf s b c)
unfolding put_buf
put_buf-stays {c} s b ok_c fits = put_buf-IsCoherent c.disk s b ok_c fits
