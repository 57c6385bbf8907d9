-- ===== src/Bcache/Holding.antt =====
-- The references that callers hold to buffers.
use os182_ass.Prelude.{
  ◌==◌, if◌then◌else◌, Bool-cases, length, All, length-append, ℕ, suc, ◌+◌, ◌-◌, ◌%◌, ◌^◌, ◌≤◌, ◌<◌,
  ◌≡◌, refl, sym, ap, ◌∙◌, subst, ◌≢◌, inl, inr, true, List, [], ◌∷◌, ◌++◌, arith, ℕ_discrete,
}
use os182_ass.Disk.{Block}
use os182_ass.Bcache.{Cache, put_buf, brelse, change}
use os182_ass.Bcache.Slots.{put_buf_self, put_buf_ne}
use os182_ass.Bcache.Get.{Read}

-- A reference to the buffer in `slot`, got for block `block`.
pub record Handle : Type 0 where
  pub slot : ℕ
  pub block : ℕ

abbrev pub uses : ℕ → List Handle → ℕ
uses s [] = 0
uses s (h ∷ hs) = (if h.slot == s then 1 else 0) + uses s hs

-- A buffer with a reference is valid, and still the one of the block that it was got for.
pub record IsHeld (c : Cache) (held : List Handle) : Type 0 where
  pub few : length held < 2 ^ 32
  pub counted : (s : ℕ) → (c.bufs s).refcnt ≡ uses s held
  pub valid : (s : ℕ) → (c.bufs s).refcnt ≢ 0 → (c.bufs s).valid ≡ true
  pub same_block : All (λ h. (c.bufs h.slot).blockno ≡ h.block) held

uses-le : (s : ℕ) (held : List Handle) → uses s held ≤ length held
uses-le s [] = omega arith
uses-le s (h ∷ hs) = ground (arith, uses-le s hs)

-- The blocks of handles, when a buffer with references keeps its block.
keep_blocks :
    (c c' : Cache) (held : List Handle)
    → ((s : ℕ) → uses s held ≢ 0 → (c'.bufs s).blockno ≡ (c.bufs s).blockno)
    → All (λ h. (c.bufs h.slot).blockno ≡ h.block) held
    → All (λ h. (c'.bufs h.slot).blockno ≡ h.block) held
keep_blocks c c' [] keeps all = tt
keep_blocks c c' (h ∷ hs) keeps all = (
  keeps h.slot (λ e. ground (arith, e)) ∙ all.0,
  keep_blocks c c' hs (λ s used. keeps s (λ e. used (omega (arith, e)))) all.1,
)

-- An operation on the buffer in slot `s` that leaves its references, its block and its validity.
pub record Leaves (c c' : Cache) (s : ℕ) : Type 0 where
  pub others : (t : ℕ) → t ≢ s → c'.bufs t ≡ c.bufs t
  pub counts : (c'.bufs s).refcnt ≡ (c.bufs s).refcnt
  pub blockno : (c'.bufs s).blockno ≡ (c.bufs s).blockno
  pub valid : (c.bufs s).valid ≡ true → (c'.bufs s).valid ≡ true

by_slot : (P : ℕ → Type 0) (s : ℕ) → P s → ((t : ℕ) → t ≢ s → P t) → (t : ℕ) → P t
by_slot P s here others t = elim (ℕ_discrete t s) [
  | yes e ↦ subst P (sym e) here
  | no ne ↦ others t ne
]

pub Leaves-IsHeld :
    {c c' : Cache} {held : List Handle} (s : ℕ) → Leaves c c' s → IsHeld c held → IsHeld c' held
Leaves-IsHeld {c} {c'} {held} s l h = record {
  few = h.few;
  counted =
      by_slot (λ t. (c'.bufs t).refcnt ≡ uses t held) s (l.counts ∙ h.counted s)
        (λ t ne. ap (λ b. b.refcnt) (l.others t ne) ∙ h.counted t);
  valid =
      by_slot (λ t. (c'.bufs t).refcnt ≢ 0 → (c'.bufs t).valid ≡ true) s
        (λ used. l.valid (h.valid s (λ e. used (l.counts ∙ e))))
        (λ t ne used.
          ap (λ b. b.valid) (l.others t ne)
          ∙ h.valid t (λ e. used (ap (λ b. b.refcnt) (l.others t ne) ∙ e)));
  same_block =
      keep_blocks c c' held
        (λ t _.
          by_slot (λ t. (c'.bufs t).blockno ≡ (c.bufs t).blockno) s l.blockno
            (λ t ne. ap (λ b. b.blockno) (l.others t ne)) t)
        h.same_block;
}

-- `bread` adds a handle.
pub Read-IsHeld :
    {c c' : Cache} {held : List Handle} (a s : ℕ)
    → suc (length held) < 2 ^ 32
    → Read c c' a s
    → IsHeld c held
    → IsHeld c' (record { slot = s; block = a } ∷ held)
Read-IsHeld {c} {c'} {held} a s few r h =
    let t0 = r.takes in
    let new : Handle = record { slot = s; block = a } in
    record {
      few = few;
      counted =
          by_slot (λ t. (c'.bufs t).refcnt ≡ uses t (new ∷ held)) s
            (t0.counts ∙ ground (arith, h.counted s, uses-le s held, few))
            (λ t ne. ap (λ b. b.refcnt) (t0.others t ne) ∙ ground (arith, h.counted t, ne));
      valid =
          by_slot (λ t. (c'.bufs t).refcnt ≢ 0 → (c'.bufs t).valid ≡ true) s (λ _. r.valid)
            (λ t ne used.
              ap (λ b. b.valid) (t0.others t ne)
              ∙ h.valid t (λ e. used (ap (λ b. b.refcnt) (t0.others t ne) ∙ e)));
      same_block = (
        r.got.blockno,
        keep_blocks c c' held
            (by_slot (λ t. uses t held ≢ 0 → (c'.bufs t).blockno ≡ (c.bufs t).blockno) s
              (λ used. r.got.blockno ∙ sym (t0.for_block (λ e. used (sym (h.counted s) ∙ e))))
              (λ t ne used. ap (λ b. b.blockno) (t0.others t ne)))
            h.same_block,
      );
    }

pub change-Leaves : {c : Cache} (s : ℕ) (d : Block) → Leaves c (change s d c) s
unfolding change
change-Leaves {c} s d =
    let new = record (c.bufs s) { contents = d; dirty = true } in
    record {
      others = put_buf_ne s new c;
      counts = ap (λ b. b.refcnt) (put_buf_self s new c);
      blockno = ap (λ b. b.blockno) (put_buf_self s new c);
      valid = λ v. ap (λ b. b.valid) (put_buf_self s new c) ∙ v;
    }

pub uses-append : (s : ℕ) (xs ys : List Handle) → uses s (xs ++ ys) ≡ uses s xs + uses s ys
uses-append s [] ys = omega arith
uses-append s (x ∷ xs) ys = omega (arith, uses-append s xs ys)

without :
    (P : Handle → Type 0) (xs : List Handle) (h : Handle) (ys : List Handle)
    → All P (xs ++ h ∷ ys)
    → All P (xs ++ ys)
without P [] h ys all = all.1
without P (x ∷ xs) h ys all = (all.0, without P xs h ys all.1)

brelse-bufs :
    (s : ℕ) (c : Cache) (t : ℕ)
    → (brelse s c).bufs t
      ≡ (put_buf s
            (record (c.bufs s) { refcnt = ((c.bufs s).refcnt + (2 ^ 32 - 1)) % 2 ^ 32 })
            c).bufs
          t
unfolding brelse
brelse-bufs s c t = elim (Bool-cases (((c.bufs s).refcnt + (2 ^ 32 - 1)) % 2 ^ 32 == 0)) [
  | inl last ↦ rw (last, brelse) refl
  | inr more ↦ rw (more, brelse) refl
]

-- `brelse` gives a handle back.
pub brelse-IsHeld :
    {c : Cache} (front : List Handle) (h : Handle) (back : List Handle)
    → IsHeld c (front ++ h ∷ back)
    → IsHeld (brelse h.slot c) (front ++ back)
brelse-IsHeld {c} front h back x =
    let s = h.slot in
    let new = record (c.bufs s) { refcnt = ((c.bufs s).refcnt + (2 ^ 32 - 1)) % 2 ^ 32 } in
    let self : (brelse s c).bufs s ≡ new = brelse-bufs s c s ∙ put_buf_self s new c in
    let others : (t : ℕ) → t ≢ s → (brelse s c).bufs t ≡ c.bufs t =
      λ t ne. brelse-bufs s c t ∙ put_buf_ne s new c t ne in
    record {
      few = omega (arith, x.few, length-append front (h ∷ back), length-append front back);
      counted =
          by_slot (λ t. ((brelse s c).bufs t).refcnt ≡ uses t (front ++ back)) s
            (ap (λ b. b.refcnt) self
              ∙ ground (
                arith,
                x.counted s,
                x.few,
                uses-le s (front ++ h ∷ back),
                uses-append s front (h ∷ back),
                uses-append s front back,
              ))
            (λ t ne.
              ap (λ b. b.refcnt) (others t ne)
              ∙ ground (
                arith,
                ne,
                x.counted t,
                uses-append t front (h ∷ back),
                uses-append t front back,
              ));
      valid =
          by_slot (λ t. ((brelse s c).bufs t).refcnt ≢ 0 → ((brelse s c).bufs t).valid ≡ true) s
            (λ _.
              ap (λ b. b.valid) self
              ∙ x.valid s (λ e. ground (arith, e, x.counted s, uses-append s front (h ∷ back))))
            (λ t ne used.
              ap (λ b. b.valid) (others t ne)
              ∙ x.valid t (λ e. used (ap (λ b. b.refcnt) (others t ne) ∙ e)));
      same_block =
          keep_blocks c (brelse s c) (front ++ back)
            (λ t _.
              by_slot (λ t. ((brelse s c).bufs t).blockno ≡ (c.bufs t).blockno) s
                (ap (λ b. b.blockno) self) (λ t ne. ap (λ b. b.blockno) (others t ne)) t)
            (without (λ h. (c.bufs h.slot).blockno ≡ h.block) front h back x.same_block);
    }
