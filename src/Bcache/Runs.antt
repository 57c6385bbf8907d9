-- ===== src/Bcache/Runs.antt =====
-- Any use of the cache, against a disk of blocks with one value each.
use os182_ass.Prelude.{
  length, All, ℕ, suc, ◌^◌, ◌<◌, ◌≡◌, refl, sym, ap, ◌∙◌, subst, inl, inr, true, List, [], ◌∷◌,
  ◌++◌, arith,
}
use os182_ass.Prelude.Outcome.{ok, panic}
use os182_ass.Disk.{Block, Blocks, update}
use os182_ass.Bcache.{Cache, binit, bread, bwrite, brelse, change}
use os182_ass.Bcache.View.{view, IsCoherent, view_clean, view_held}
use os182_ass.Bcache.Get.{bread_lem}
use os182_ass.Bcache.Change.{change-IsCoherent, view-change}
use os182_ass.Bcache.Holding.{
  Handle, uses-append, IsHeld, Leaves-IsHeld, Read-IsHeld, change-Leaves, brelse-IsHeld,
}
use os182_ass.Bcache.Release.{brelse-shows}
use os182_ass.Bcache.Write.{bwrite_lem}

pub binit-IsCoherent : (disk : Blocks) → IsCoherent (binit disk)
unfolding binit
binit-IsCoherent disk = record {
  in_list = λ s d. absurd (omega (arith, d));
  single = λ s t d. absurd (omega (arith, d));
  on_disk = λ s v. absurd cc;
  agrees = λ s v. absurd cc;
  dirty_valid = λ s v. absurd cc;
}

view-binit : (disk : Blocks) (a : ℕ) → view (binit disk) a ≡ disk a
unfolding binit
view-binit disk a = view_clean (binit disk) (binit-IsCoherent disk) a (λ s v. absurd cc)

-- The states that calls lead to from `binit` on, on a disk of `n` blocks, each with the value that
-- every block of the abstract disk has there, and the handles that callers hold. A caller changes,
-- writes and releases only buffers that it holds.
pub data Run (n : ℕ) (disk : Blocks) : Cache → Blocks → List Handle → Type 0 where
  starts : Run n disk (binit disk) disk []
  reads :
      {c c' : Cache} {m : Blocks} {held : List Handle} (a s : ℕ)
      → Run n disk c m held
      → a < n
      → suc (length held) < 2 ^ 32
      → bread n 1 a c ≡ ok (s, c')
      → Run n disk c' m (record { slot = s; block = a } ∷ held)
  changes :
      {c : Cache} {m : Blocks} (front : List Handle) (h : Handle) (back : List Handle) (d : Block)
      → Run n disk c m (front ++ h ∷ back)
      → Run n disk (change h.slot d c) (update m h.block d) (front ++ h ∷ back)
  writes :
      {c c' : Cache} {m : Blocks} (front : List Handle) (h : Handle) (back : List Handle)
      → Run n disk c m (front ++ h ∷ back)
      → h.block < n
      → bwrite n h.slot c ≡ ok c'
      → Run n disk c' m (front ++ h ∷ back)
  releases :
      {c : Cache} {m : Blocks} (front : List Handle) (h : Handle) (back : List Handle)
      → Run n disk c m (front ++ h ∷ back)
      → Run n disk (brelse h.slot c) m (front ++ back)

update-ext :
    (f g : Blocks) (a : ℕ) (d : Block) (b : ℕ) → f b ≡ g b → update f a d b ≡ update g a d b
unfolding update
update-ext f g a d b e = ground (arith, e)

ok-inj : {A : Type 0} {x y : A} → ok x ≡ ok y → x ≡ y
ok-inj e = cc

handle-block :
    (c : Cache) (front : List Handle) (h : Handle) (back : List Handle)
    → All (λ x. (c.bufs x.slot).blockno ≡ x.block) (front ++ h ∷ back)
    → (c.bufs h.slot).blockno ≡ h.block
handle-block c [] h back all = all.0
handle-block c (x ∷ front) h back all = handle-block c front h back all.1

handle-valid :
    {c : Cache} (front : List Handle) (h : Handle) (back : List Handle)
    → IsHeld c (front ++ h ∷ back)
    → (c.bufs h.slot).valid ≡ true
handle-valid front h back x =
    x.valid h.slot (λ e. ground (arith, e, x.counted h.slot, uses-append h.slot front (h ∷ back)))

-- What the cache is to its callers: it shows of every block the value `m` of it, and in the buffer of
-- a handle is the value of the block of the handle.
pub record Serves (c : Cache) (m : Blocks) (held : List Handle) : Type 0 where
  pub coherent : IsCoherent c
  pub shows : (a : ℕ) → view c a ≡ m a
  pub held_for : IsHeld c held
  pub contents :
      (front : List Handle) (h : Handle) (back : List Handle)
      → held ≡ front ++ h ∷ back
      → (c.bufs h.slot).contents ≡ m h.block

serves :
    {c : Cache} {m : Blocks} {held : List Handle}
    → IsCoherent c
    → ((a : ℕ) → view c a ≡ m a)
    → IsHeld c held
    → Serves c m held
serves {c} {m} {held} ok_c shows x = record {
  coherent = ok_c;
  shows = shows;
  held_for = x;
  contents = λ front h back e.
      let y = subst (IsHeld c) e x in
      let v = handle-valid front h back y in
      sym (view_held c ok_c h.slot (ok_c.on_disk h.slot v) ∙ rw v refl)
      ∙ ap (view c) (handle-block c front h back y.same_block)
      ∙ shows h.block;
}

binit-IsHeld : (disk : Blocks) → IsHeld (binit disk) []
unfolding binit
binit-IsHeld disk = record {
  few = omega arith;
  counted = λ s. refl;
  valid = λ s used. absurd (used refl);
  same_block = tt;
}

-- Whatever calls are made, by callers that change, write and release only buffers that they hold, the
-- cache is coherent and shows of every block the value that the block was last given. A buffer has as
-- many references as there are handles of it, and until the last of them is given back it holds the
-- value of the block that it was got for: the reuse of buffers and the writes to the disk cannot be
-- seen.
pub Run-shows :
    {n : ℕ} {disk : Blocks} {c : Cache} {m : Blocks} {held : List Handle}
    → Run n disk c m held
    → Serves c m held
Run-shows {disk = disk} starts =
    serves (binit-IsCoherent disk) (view-binit disk) (binit-IsHeld disk)
Run-shows {n} (reads {c} {c'} {m} {held} a s run lt few e) =
    let v = Run-shows run in
    elim (bread_lem n a c v.coherent lt).0 [
      | inl (t, c1, e', r) ↦
          let both : ok (t, c1) ≡ ok (s, c') = sym e' ∙ e in
          let slots : t ≡ s = ap (λ p. p.0) (ok-inj both) in
          let same : c1 ≡ c' = ap (λ p. p.1) (ok-inj both) in
          subst (λ u. Serves c' m (record { slot = u; block = a } ∷ held)) slots
            (subst (λ x. Serves x m (record { slot = t; block = a } ∷ held)) same
              (serves r.got.coherent (λ b. r.got.shows b ∙ v.shows b)
                (Read-IsHeld a t few r v.held_for)))
      | inr (e', full) ↦ absurd (let both : panic ≡ ok (s, c') = sym e' ∙ e in cc)
    ]
Run-shows (changes {c} {m} front h back d run) =
    let v = Run-shows run in
    let valid = handle-valid front h back v.held_for in
    let block = handle-block c front h back v.held_for.same_block in
    serves (change-IsCoherent h.slot d v.coherent valid)
      (λ a.
        view-change h.slot d v.coherent valid a
        ∙ update-ext (view c) m (c.bufs h.slot).blockno d a (v.shows a)
        ∙ ap (λ b. update m b d a) block)
      (Leaves-IsHeld h.slot (change-Leaves h.slot d) v.held_for)
Run-shows {n} (writes {c} {c'} {m} front h back run lt e) =
    let v = Run-shows run in
    let valid = handle-valid front h back v.held_for in
    let block = handle-block c front h back v.held_for.same_block in
    let (c1, e', w) = bwrite_lem n h.slot c v.coherent valid (subst (λ b. b < n) (sym block) lt) in
    let same : c1 ≡ c' = ok-inj (sym e' ∙ e) in
    subst (λ x. Serves x m (front ++ h ∷ back)) same
      (serves w.coherent (λ b. w.shows b ∙ v.shows b) (Leaves-IsHeld h.slot w.leaves v.held_for))
Run-shows (releases {c} {m} front h back run) =
    let v = Run-shows run in
    let (ok_r, same) = brelse-shows h.slot v.coherent in
    serves ok_r (λ a. same a ∙ v.shows a) (brelse-IsHeld front h back v.held_for)
