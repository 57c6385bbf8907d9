-- ===== src/Bcache/Release.antt =====
-- `brelse` reorders the list.
use os182_ass.Prelude.{
  ◌==◌, Bool-cases, ℕ, ◌+◌, ◌-◌, ◌%◌, ◌^◌, ◌≡◌, refl, ◌∙◌, ◌≢◌, inl, inr, true, List, [], ◌∷◌,
  arith, ℕ_discrete,
}
use os182_ass.Bcache.{Cache, put_buf, remove, brelse}
use os182_ass.Bcache.View.{view, listed, IsCoherent, view_same}
use os182_ass.Bcache.Slots.{put_buf-stays, stays_alone, view-put_buf}

listed-remove : (s t : ℕ) (ss : List ℕ) → t ≢ s → listed t ss ≡ true → listed t (remove s ss) ≡ true
unfolding listed remove
listed-remove s t [] ne l = absurd cc
listed-remove s t (x ∷ xs) ne l =
    let ih = listed-remove s t xs ne in
    elim (ℕ_discrete x s) [
      | yes e ↦ ground (arith, e, l, ne)
      | no other ↦ elim (ℕ_discrete x t) [
        | yes here ↦ ground (arith, here, other)
        | no there ↦ let later = ih (ground (arith, l, there)) in ground (arith, later, other)
      ]
    ]

listed-front : (s t : ℕ) (ss : List ℕ) → listed t ss ≡ true → listed t (s ∷ remove s ss) ≡ true
unfolding listed
listed-front s t ss l = elim (ℕ_discrete t s) [
  | yes e ↦ ground (arith, e)
  | no ne ↦ let later = listed-remove s t ss ne l in ground (arith, later)
]

reorder-IsCoherent :
    {c : Cache} (order : List ℕ)
    → IsCoherent c
    → ((t : ℕ) → listed t c.order ≡ true → listed t order ≡ true)
    → IsCoherent (record c { order = order })
reorder-IsCoherent order ok_c keeps = record {
  in_list = λ s d. keeps s (ok_c.in_list s d);
  single = ok_c.single;
  on_disk = ok_c.on_disk;
  agrees = ok_c.agrees;
  dirty_valid = ok_c.dirty_valid;
}

pub brelse-shows :
    {c : Cache} (s : ℕ)
    → IsCoherent c
    → IsCoherent (brelse s c) × ((a : ℕ) → view (brelse s c) a ≡ view c a)
unfolding brelse put_buf
brelse-shows {c} s ok_c = elim (Bool-cases (left == 0)) [
  | inr more ↦ rw more (ok_released, shows)
  | inl last ↦
      let ok_front =
        reorder-IsCoherent {c = released} (s ∷ remove s released.order) ok_released
          (λ t. listed-front s t released.order) in
      let same =
        view_same released (record released { order = s ∷ remove s released.order }) ok_released
          ok_front (λ a. refl) (λ t. refl) (λ t d. (refl, refl)) in
      rw last (ok_front, λ a. same a ∙ shows a)
]
  where
    left : ℕ
    left = ((c.bufs s).refcnt + (2 ^ 32 - 1)) % 2 ^ 32

    released : Cache
    released = put_buf s (record (c.bufs s) { refcnt = left }) c

    ok_released : IsCoherent released
    ok_released =
        put_buf-stays s (record (c.bufs s) { refcnt = left }) ok_c
          (record {
            in_list = ok_c.in_list s;
            alone = stays_alone s ok_c;
            on_disk = ok_c.on_disk s;
            agrees = ok_c.agrees s;
            dirty_valid = ok_c.dirty_valid s;
            others = λ t ne e. refl;
          })

    shows : (a : ℕ) → view released a ≡ view c a
    shows =
        view-put_buf s (record (c.bufs s) { refcnt = left }) ok_c ok_released refl
          (λ e. (refl, refl))
