-- ===== src/Bcache/View.antt =====
-- What the cache shows of each block, and the rule that makes this one value.
use os182_ass.Prelude.{
  ◌==◌, if◌then◌else◌, Bool-cases, Option-cases, ℕ, ◌≡◌, refl, sym, ap, ◌∙◌, subst, ◌≢◌, ◌⊎◌, inl,
  inr, Bool, true, false, ◌||◌, none, some, List, [], ◌∷◌, arith, ℕ_discrete,
}
use os182_ass.Disk.{Block}
use os182_ass.Bcache.{Buf, Cache, is_for, find_cached}

-- The contents of block `a` of the disk: those of its buffer when it has a valid one.
abbrev pub view : Cache → ℕ → Block
view c a = elim (find_cached 1 a c.bufs c.order) [
  | none ↦ c.disk a
  | some s ↦ if (c.bufs s).valid then (c.bufs s).contents else c.disk a
]

unfoldable pub listed : ℕ → List ℕ → Bool
listed s [] = false
listed s (t ∷ ts) = (t == s) || listed s ts

-- No block has two buffers, and a buffer that is not marked dirty agrees with the disk.
pub record IsCoherent (c : Cache) : Type 0 where
  pub in_list : (s : ℕ) → (c.bufs s).dev ≡ 1 → listed s c.order ≡ true
  pub single :
      (s t : ℕ)
      → (c.bufs s).dev ≡ 1
      → (c.bufs t).dev ≡ 1
      → (c.bufs s).blockno ≡ (c.bufs t).blockno
      → s ≡ t
  pub on_disk : (s : ℕ) → (c.bufs s).valid ≡ true → (c.bufs s).dev ≡ 1
  pub agrees :
      (s : ℕ)
      → (c.bufs s).valid ≡ true
      → (c.bufs s).dirty ≡ false
      → (c.bufs s).contents ≡ c.disk (c.bufs s).blockno
  pub dirty_valid : (s : ℕ) → (c.bufs s).dirty ≡ true → (c.bufs s).valid ≡ true

pub find_cached-some :
    {dev a : ℕ} (bufs : ℕ → Buf) (ss : List ℕ) {s : ℕ}
    → find_cached dev a bufs ss ≡ some s
    → ((bufs s).dev ≡ dev) × ((bufs s).blockno ≡ a)
unfolding find_cached
find_cached-some bufs [] e = absurd cc
find_cached-some {dev} {a} bufs (t ∷ ts) {s} e = elim (Bool-cases (is_for dev a (bufs t))) [
  | inl h ↦
      let same : t ≡ s = ground (arith, e, h) in
      subst (λ x. ((bufs x).dev ≡ dev) × ((bufs x).blockno ≡ a)) same
        (ground (arith, h), ground (arith, h))
  | inr h ↦ find_cached-some {dev = dev} {a = a} bufs ts {s = s} (ground (arith, e, h))
]

pub find_cached-none :
    {dev a : ℕ} (bufs : ℕ → Buf) (ss : List ℕ)
    → find_cached dev a bufs ss ≡ none
    → (s : ℕ) → listed s ss ≡ true
    → (bufs s).dev ≡ dev
    → (bufs s).blockno ≢ a
unfolding find_cached listed
find_cached-none bufs [] e s l d = absurd cc
find_cached-none {dev} {a} bufs (t ∷ ts) e s l d = elim (Bool-cases (is_for dev a (bufs t))) [
  | inl h ↦ absurd (ground (arith, e, h))
  | inr h ↦
      let ih = find_cached-none {dev = dev} {a = a} bufs ts (ground (arith, e, h)) s in
      elim (ℕ_discrete t s) [
        | yes same ↦ λ is.
            let d' = ap (λ x. (bufs x).dev) same ∙ d in
            let is' = ap (λ x. (bufs x).blockno) same ∙ is in ground (arith, h, d', is')
        | no ne ↦ ih (ground (arith, l, ne)) d
      ]
]

view-found :
    (c : Cache) (a t : ℕ)
    → find_cached 1 a c.bufs c.order ≡ some t
    → view c a ≡ (if (c.bufs t).valid then (c.bufs t).contents else c.disk a)
view-found c a t found = rw (found, view) refl

-- The buffer of a block decides what is shown.
pub view_held :
    (c : Cache)
    → IsCoherent c
    → (s : ℕ) → (c.bufs s).dev ≡ 1
    → view c (c.bufs s).blockno
      ≡ (if (c.bufs s).valid then (c.bufs s).contents else c.disk (c.bufs s).blockno)
view_held c ok_c s d = elim (Option-cases (find_cached 1 (c.bufs s).blockno c.bufs c.order)) [
  | inl no_buf ↦ absurd (find_cached-none c.bufs c.order no_buf s (ok_c.in_list s d) d refl)
  | inr (t, found) ↦
      let (dt, bt) = find_cached-some c.bufs c.order found in
      let same : t ≡ s = ok_c.single t s dt d bt in
      view-found c (c.bufs s).blockno t found
      ∙ ap (λ x. if (c.bufs x).valid then (c.bufs x).contents else c.disk (c.bufs s).blockno) same
]

-- A dirty buffer shows its contents, and where no dirty buffer is for the block, the disk shows.
pub view_dirty :
    (c : Cache)
    → IsCoherent c
    → (s : ℕ) → (c.bufs s).dirty ≡ true
    → view c (c.bufs s).blockno ≡ (c.bufs s).contents
view_dirty c ok_c s d =
    let v = ok_c.dirty_valid s d in view_held c ok_c s (ok_c.on_disk s v) ∙ rw v refl

pub view_clean :
    (c : Cache)
    → IsCoherent c
    → (a : ℕ) → ((s : ℕ) → (c.bufs s).dirty ≡ true → (c.bufs s).blockno ≢ a)
    → view c a ≡ c.disk a
view_clean c ok_c a clean = elim (Option-cases (find_cached 1 a c.bufs c.order)) [
  | inl no_buf ↦ rw (no_buf, view) refl
  | inr (t, found) ↦
      let (dt, bt) = find_cached-some c.bufs c.order found in
      rw (found, view)
        (elim (Bool-cases (c.bufs t).valid) [
          | inr v ↦ rw v refl
          | inl v ↦ elim (Bool-cases (c.bufs t).dirty) [
            | inl d ↦ absurd (clean t d bt)
            | inr d ↦ rw v (ok_c.agrees t v d ∙ ap c.disk bt)
          ]
        ])
]

pub view_cases :
    (c : Cache)
    → IsCoherent c
    → (a : ℕ)
    → ((s : ℕ) × ((c.bufs s).dirty ≡ true) × ((c.bufs s).blockno ≡ a))
      ⊎ ((s : ℕ) → (c.bufs s).dirty ≡ true → (c.bufs s).blockno ≢ a)
view_cases c ok_c a = elim (Option-cases (find_cached 1 a c.bufs c.order)) [
  | inl no_buf ↦ inr (λ s d.
      let dv = ok_c.on_disk s (ok_c.dirty_valid s d) in
      find_cached-none c.bufs c.order no_buf s (ok_c.in_list s dv) dv)
  | inr (t, found) ↦
      let (dt, bt) = find_cached-some c.bufs c.order found in
      elim (Bool-cases (c.bufs t).dirty) [
        | inl d ↦ inl (t, d, bt)
        | inr d ↦ inr (λ s ds is.
            let dv = ok_c.on_disk s (ok_c.dirty_valid s ds) in
            let same : s ≡ t = ok_c.single s t dv dt (is ∙ sym bt) in
            absurd (let h : true ≡ false = sym ds ∙ ap (λ x. (c.bufs x).dirty) same ∙ d in cc))
      ]
]

-- Where the dirty buffers and the disk stay as they are, every block shows the same.
pub view_same :
    (c c' : Cache)
    → IsCoherent c
    → IsCoherent c'
    → ((a : ℕ) → c'.disk a ≡ c.disk a)
    → ((s : ℕ) → (c'.bufs s).dirty ≡ (c.bufs s).dirty)
    → ((s : ℕ)
        → (c.bufs s).dirty ≡ true
        → ((c'.bufs s).blockno ≡ (c.bufs s).blockno) × ((c'.bufs s).contents ≡ (c.bufs s).contents))
    → (a : ℕ) → view c' a ≡ view c a
view_same c c' ok_c ok_c' disks dirts keeps a = elim (view_cases c ok_c a) [
  | inl (s, d, is) ↦
      let (b, k) = keeps s d in
      ap (view c') (sym (b ∙ is))
      ∙ view_dirty c' ok_c' s (dirts s ∙ d)
      ∙ k
      ∙ sym (view_dirty c ok_c s d)
      ∙ ap (view c) is
  | inr clean ↦
      view_clean c' ok_c' a
        (λ s d is. let d' = sym (dirts s) ∙ d in clean s d' (sym (keeps s d').0 ∙ is))
      ∙ disks a
      ∙ sym (view_clean c ok_c a clean)
]
