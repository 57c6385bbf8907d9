-- ===== src/Bcache/Change.antt =====
-- A process that holds a buffer changes its contents.
use os182_ass.Prelude.{ℕ, ◌≡◌, refl, sym, ap, ◌∙◌, ◌≢◌, inl, inr, true, arith, ℕ_discrete}
use os182_ass.Disk.{Block, update, update_self, update_ne}
use os182_ass.Bcache.{Cache, put_buf, change}
use os182_ass.Bcache.View.{view, IsCoherent, view_dirty, view_clean, view_cases}
use os182_ass.Bcache.Slots.{put_buf_ne, put_buf-stays, stays_alone}

-- A change of the contents of a held buffer, marked dirty.
pub change-IsCoherent :
    {c : Cache} (s : ℕ) (d : Block)
    → IsCoherent c
    → (c.bufs s).valid ≡ true
    → IsCoherent (change s d c)
unfolding change
change-IsCoherent {c} s d ok_c v =
    put_buf-stays s (record (c.bufs s) { contents = d; dirty = true }) ok_c
      (record {
        in_list = ok_c.in_list s;
        alone = stays_alone s ok_c;
        on_disk = ok_c.on_disk s;
        agrees = λ e e'. absurd cc;
        dirty_valid = λ e. v;
        others = λ t ne e. refl;
      })

pub change-buf : (s : ℕ) (d : Block) (c : Cache) → ((change s d c).bufs s).contents ≡ d
unfolding change put_buf
change-buf s d c = ground arith

pub change-blockno :
    (s : ℕ) (d : Block) (c : Cache) → ((change s d c).bufs s).blockno ≡ (c.bufs s).blockno
unfolding change put_buf
change-blockno s d c = ground arith

pub change-dirty : (s : ℕ) (d : Block) (c : Cache) → ((change s d c).bufs s).dirty ≡ true
unfolding change put_buf
change-dirty s d c = ground arith

pub change-disk : (s : ℕ) (d : Block) (c : Cache) (a : ℕ) → (change s d c).disk a ≡ c.disk a
unfolding change put_buf
change-disk s d c a = refl

change-ne : (s : ℕ) (d : Block) (c : Cache) (t : ℕ) → t ≢ s → (change s d c).bufs t ≡ c.bufs t
unfolding change
change-ne s d c t ne = put_buf_ne s (record (c.bufs s) { contents = d; dirty = true }) c t ne

pub view-change :
    {c : Cache} (s : ℕ) (d : Block)
    → IsCoherent c
    → (c.bufs s).valid ≡ true
    → (a : ℕ) → view (change s d c) a ≡ update (view c) (c.bufs s).blockno d a
view-change {c} s d ok_c v a =
    let c' = change s d c in
    let ok_c' = change-IsCoherent s d ok_c v in
    elim (ℕ_discrete a (c.bufs s).blockno) [
      | yes same ↦
          ap (view c') (same ∙ sym (change-blockno s d c))
          ∙ view_dirty c' ok_c' s (change-dirty s d c)
          ∙ change-buf s d c
          ∙ sym (update_self (view c) (c.bufs s).blockno d)
          ∙ ap (update (view c) (c.bufs s).blockno d) (sym same)
      | no ne ↦ elim (view_cases c ok_c a) [
        | inl (t, dt, bt) ↦
            let other : t ≢ s = λ e. ne (sym bt ∙ ap (λ x. (c.bufs x).blockno) e) in
            let keep = change-ne s d c t other in
            ap (view c') (sym (ap (λ x. x.blockno) keep ∙ bt))
            ∙ view_dirty c' ok_c' t (ap (λ x. x.dirty) keep ∙ dt)
            ∙ ap (λ x. x.contents) keep
            ∙ sym (view_dirty c ok_c t dt)
            ∙ ap (view c) bt
            ∙ sym (update_ne (view c) (c.bufs s).blockno d a ne)
        | inr clean ↦
            view_clean c' ok_c' a (λ t dt is. elim (ℕ_discrete t s) [
              | yes e ↦ ne (sym is ∙ ap (λ x. (c'.bufs x).blockno) e ∙ change-blockno s d c)
              | no other ↦
                  let keep = change-ne s d c t other in
                  clean t (sym (ap (λ x. x.dirty) keep) ∙ dt) (sym (ap (λ x. x.blockno) keep) ∙ is)
            ])
            ∙ change-disk s d c a
            ∙ sym (view_clean c ok_c a clean)
            ∙ sym (update_ne (view c) (c.bufs s).blockno d a ne)
      ]
    ]
