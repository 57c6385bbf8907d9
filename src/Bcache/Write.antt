-- ===== src/Bcache/Write.antt =====
-- Writes to the disk.
use os182_ass.Prelude.{
  leb, if◌then◌else◌, ℕ, ◌<◌, ◌≡◌, refl, sym, ap, ◌∙◌, subst, ◌≢◌, inl, inr, true, false, arith,
  ℕ_discrete,
}
use os182_ass.Prelude.Outcome.{ok}
use os182_ass.Disk.{Blocks, update, update_self, update_ne}
use os182_ass.Bcache.{Buf, Cache, put_buf, iderw, bwrite, change}
use os182_ass.Bcache.View.{view, IsCoherent, view_held, view_dirty, view_clean, view_cases}
use os182_ass.Bcache.Slots.{put_buf_self, put_buf_ne, put_buf-at, put_buf-IsCoherent, stays_alone}
use os182_ass.Bcache.Holding.{Leaves, change-Leaves}
use os182_ass.Bcache.Change.{
  change-IsCoherent, view-change, change-buf, change-blockno, change-dirty, change-disk,
}

Leaves-trans : {c c1 c2 : Cache} {s : ℕ} → Leaves c c1 s → Leaves c1 c2 s → Leaves c c2 s
Leaves-trans l k = record {
  others = λ t ne. k.others t ne ∙ l.others t ne;
  counts = k.counts ∙ l.counts;
  blockno = k.blockno ∙ l.blockno;
  valid = λ v. k.valid (l.valid v);
}

-- The write of `iderw`, from a dirty buffer.
pub record Written (c c' : Cache) (s : ℕ) : Type 0 where
  pub coherent : IsCoherent c'
  pub shows : (a : ℕ) → view c' a ≡ view c a
  pub on_disk : c'.disk (c.bufs s).blockno ≡ (c.bufs s).contents
  pub others : (a : ℕ) → a ≢ (c.bufs s).blockno → c'.disk a ≡ c.disk a
  pub leaves : Leaves c c' s

pub iderw-write :
    {c : Cache} (n s : ℕ)
    → IsCoherent c
    → (c.bufs s).dirty ≡ true
    → (c.bufs s).blockno < n
    → (c' : Cache) × (iderw n s c ≡ ok c') × Written c c' s
unfolding iderw
iderw-write {c} n s ok_c dirt lt = (
  c',
  rw (v, d, dirt, in_range) refl,
  record {
    coherent = ok_c';
    shows = shows;
    on_disk = update_self c.disk (c.bufs s).blockno (c.bufs s).contents;
    others = λ a ne. update_ne c.disk (c.bufs s).blockno (c.bufs s).contents a ne;
    leaves = record {
      others = put_buf_ne s new c;
      counts = ap (λ x. x.refcnt) (put_buf_self s new c);
      blockno = ap (λ x. x.blockno) (put_buf_self s new c);
      valid = λ _. ap (λ x. x.valid) (put_buf_self s new c);
    };
  },
)
  where
    v : (c.bufs s).valid ≡ true
    v = ok_c.dirty_valid s dirt

    d : (c.bufs s).dev ≡ 1
    d = ok_c.on_disk s v

    in_range : leb n (c.bufs s).blockno ≡ false
    in_range = ground (arith, lt)

    new : Buf
    new = record (c.bufs s) { valid = true; dirty = false }

    disk : Blocks
    disk = update c.disk (c.bufs s).blockno (c.bufs s).contents

    c' : Cache
    c' = record (put_buf s new c) { disk = disk }

    ok_c' : IsCoherent c'
    ok_c' = put_buf-IsCoherent disk s new ok_c (record {
      in_list = ok_c.in_list s;
      alone = stays_alone s ok_c;
      on_disk = λ e. d;
      agrees = λ e e'. sym (update_self c.disk (c.bufs s).blockno (c.bufs s).contents);
      dirty_valid = λ e. absurd cc;
      others = λ t ne e.
          update_ne c.disk (c.bufs s).blockno (c.bufs s).contents (c.bufs t).blockno
            (stays_alone s ok_c t ne d e);
    })

    still_dirty :
        (t : ℕ)
        → (c'.bufs t).dirty ≡ true
        → (c.bufs t).dirty ≡ true × ((c'.bufs t).blockno ≡ (c.bufs t).blockno)
    still_dirty =
        put_buf-at
          (λ t x. x.dirty ≡ true → (c.bufs t).dirty ≡ true × (x.blockno ≡ (c.bufs t).blockno)) s new
          c (λ e. absurd cc) (λ t ne e. (e, refl))

    shows : (a : ℕ) → view c' a ≡ view c a
    shows a = elim (ℕ_discrete a (c.bufs s).blockno) [
      | yes same ↦
          let self = put_buf_self s new c in
          ap (view c') (same ∙ sym (ap (λ x. x.blockno) self))
          ∙ view_held c' ok_c' s (ap (λ x. x.dev) self ∙ d)
          ∙ ap (λ x. if x.valid then x.contents else disk x.blockno) self
          ∙ sym (view_dirty c ok_c s dirt)
          ∙ ap (view c) (sym same)
      | no ne ↦ elim (view_cases c ok_c a) [
        | inl (t, dt, bt) ↦
            let other : t ≢ s = λ e. ne (sym bt ∙ ap (λ x. (c.bufs x).blockno) e) in
            let keep = put_buf_ne s new c t other in
            ap (view c') (sym (ap (λ x. x.blockno) keep ∙ bt))
            ∙ view_dirty c' ok_c' t (ap (λ x. x.dirty) keep ∙ dt)
            ∙ ap (λ x. x.contents) keep
            ∙ sym (view_dirty c ok_c t dt)
            ∙ ap (view c) bt
        | inr clean ↦
            view_clean c' ok_c' a
              (λ t dt is. let (e, b) = still_dirty t dt in clean t e (sym b ∙ is))
            ∙ update_ne c.disk (c.bufs s).blockno (c.bufs s).contents a ne
            ∙ sym (view_clean c ok_c a clean)
      ]
    ]

-- `bwrite` of a valid buffer puts its contents on the disk as the value of its block, changes no
-- other block of the disk and nothing that the cache shows.
pub bwrite_lem :
    (n s : ℕ) (c : Cache)
    → IsCoherent c
    → (c.bufs s).valid ≡ true
    → (c.bufs s).blockno < n
    → (c' : Cache) × (bwrite n s c ≡ ok c') × Written c c' s
unfolding bwrite change
bwrite_lem n s c ok_c v lt =
    let d = (c.bufs s).contents in
    let ok_m = change-IsCoherent s d ok_c v in
    let (c', e, w) =
      iderw-write n s ok_m (change-dirty s d c)
        (subst (λ x. x < n) (sym (change-blockno s d c)) lt) in
    let held : view c (c.bufs s).blockno ≡ d = view_held c ok_c s (ok_c.on_disk s v) ∙ rw v refl in
    (
      c',
      e,
      record {
        coherent = w.coherent;
        shows = λ a. w.shows a ∙ view-change s d ok_c v a ∙ update_same a held;
        on_disk = ap c'.disk (sym (change-blockno s d c)) ∙ w.on_disk ∙ change-buf s d c;
        others = λ a ne. w.others a (λ e. ne (e ∙ change-blockno s d c)) ∙ change-disk s d c a;
        leaves = Leaves-trans (change-Leaves s d) w.leaves;
      },
    )
  where
    update_same :
        (a : ℕ)
        → view c (c.bufs s).blockno ≡ (c.bufs s).contents
        → update (view c) (c.bufs s).blockno (c.bufs s).contents a ≡ view c a
    update_same a held = elim (ℕ_discrete a (c.bufs s).blockno) [
      | yes same ↦
          ap (update (view c) (c.bufs s).blockno (c.bufs s).contents) same
          ∙ update_self (view c) (c.bufs s).blockno (c.bufs s).contents
          ∙ sym held
          ∙ ap (view c) (sym same)
      | no ne ↦ update_ne (view c) (c.bufs s).blockno (c.bufs s).contents a ne
    ]
