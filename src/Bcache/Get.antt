-- ===== src/Bcache/Get.antt =====
-- `bget` and `bread` give the one buffer of a block, with what the cache shows of it.
use os182_ass.Prelude.{
  leb, if◌then◌else◌, Bool-cases, Option-cases, ℕ, ◌+◌, ◌%◌, ◌^◌, ◌<◌, ◌≡◌, refl, sym, ap, ◌∙◌,
  subst, ◌≢◌, ◌⊎◌, inl, inr, true, false, none, some, List, [], ◌∷◌, arith, ℕ_discrete,
}
use os182_ass.Prelude.Outcome.{ok, panic}
use os182_ass.Bcache.{
  Buf, Cache, put_buf, can_recycle, find_cached, find_unused_buf, bget, iderw, bread,
}
use os182_ass.Bcache.View.{view, listed, IsCoherent, find_cached-some, find_cached-none, view_held}
use os182_ass.Bcache.Slots.{
  Fits, put_buf_self, put_buf_ne, put_buf-stays, stays_alone, view-put_buf,
}

-- The buffer in slot `s` is for block `a`, and the cache `c'` shows what `c` shows.
pub record Got (c c' : Cache) (a s : ℕ) : Type 0 where
  pub coherent : IsCoherent c'
  pub dev : (c'.bufs s).dev ≡ 1
  pub blockno : (c'.bufs s).blockno ≡ a
  pub shows : (b : ℕ) → view c' b ≡ view c b

-- The caller gets a reference to the buffer in slot `s`, which was for block `a` or had no reference;
-- all other buffers are as before.
pub record Takes (c c' : Cache) (a s : ℕ) : Type 0 where
  pub others : (t : ℕ) → t ≢ s → c'.bufs t ≡ c.bufs t
  pub counts : (c'.bufs s).refcnt ≡ ((c.bufs s).refcnt + 1) % 2 ^ 32
  pub for_block : ((c.bufs s).refcnt ≢ 0) → (c.bufs s).blockno ≡ a

find_unused_buf-some :
    (bufs : ℕ → Buf) (ss : List ℕ) {s : ℕ}
    → find_unused_buf bufs ss ≡ some s
    → (can_recycle (bufs s) ≡ true) × (listed s ss ≡ true)
unfolding find_unused_buf listed
find_unused_buf-some bufs [] e = absurd cc
find_unused_buf-some bufs (t ∷ ts) {s} e = elim (Option-cases (find_unused_buf bufs ts)) [
  | inr (u, found) ↦
      let (h, l) = find_unused_buf-some bufs ts found in
      let whole : find_unused_buf bufs (t ∷ ts) ≡ some u = rw found refl in
      let same : u ≡ s = (let both : some u ≡ some s = sym whole ∙ e in cc) in
      subst (λ x. (can_recycle (bufs x) ≡ true) × (listed x (t ∷ ts) ≡ true)) same
        (h, ground (arith, l))
  | inl no_later ↦
      let e' : (if can_recycle (bufs t) then some t else none) ≡ some s =
        subst
          (λ r.
            elim r [ some u ↦ some u | none ↦ if can_recycle (bufs t) then some t else none ]
            ≡ some s)
          no_later e in
      elim (Bool-cases (can_recycle (bufs t))) [
        | inl h ↦
            let same : t ≡ s = ground (arith, e', h) in
            subst (λ x. (can_recycle (bufs x) ≡ true) × (listed x (t ∷ ts) ≡ true)) same
              (h, ground arith)
        | inr h ↦ absurd (ground (arith, e', h))
      ]
]

find_unused_buf-none :
    (bufs : ℕ → Buf) (ss : List ℕ)
    → find_unused_buf bufs ss ≡ none
    → (s : ℕ) → listed s ss ≡ true
    → can_recycle (bufs s) ≡ false
unfolding find_unused_buf listed
find_unused_buf-none bufs [] e s l = absurd cc
find_unused_buf-none bufs (t ∷ ts) e s l = elim (Option-cases (find_unused_buf bufs ts)) [
  | inr (u, found) ↦
      let whole : find_unused_buf bufs (t ∷ ts) ≡ some u = rw found refl in
      absurd (let both : some u ≡ none = sym whole ∙ e in cc)
  | inl no_later ↦
      let e' : (if can_recycle (bufs t) then some t else none) ≡ none =
        subst
          (λ r.
            elim r [ some u ↦ some u | none ↦ if can_recycle (bufs t) then some t else none ]
            ≡ none)
          no_later e in
      let ih = find_unused_buf-none bufs ts no_later s in
      elim (Bool-cases (can_recycle (bufs t))) [
        | inl h ↦ absurd (ground (arith, e', h))
        | inr h ↦ elim (ℕ_discrete t s) [
          | yes same ↦ ap (λ x. can_recycle (bufs x)) (sym same) ∙ h
          | no ne ↦ ih (ground (arith, l, ne))
        ]
      ]
]

hit-Got :
    {c : Cache} (a s : ℕ)
    → IsCoherent c
    → find_cached 1 a c.bufs c.order ≡ some s
    → Got c (put_buf s (record (c.bufs s) { refcnt = ((c.bufs s).refcnt + 1) % 2 ^ 32 }) c) a s
hit-Got {c} a s ok_c found =
    let (d, b) = find_cached-some c.bufs c.order found in
    let new = record (c.bufs s) { refcnt = ((c.bufs s).refcnt + 1) % 2 ^ 32 } in
    let fits : Fits c c.disk s new = record {
      in_list = ok_c.in_list s;
      alone = stays_alone s ok_c;
      on_disk = ok_c.on_disk s;
      agrees = ok_c.agrees s;
      dirty_valid = ok_c.dirty_valid s;
      others = λ t ne e. refl;
    } in
    let ok_c' = put_buf-stays s new ok_c fits in
    record {
      coherent = ok_c';
      dev = ap (λ x. x.dev) (put_buf_self s new c) ∙ d;
      blockno = ap (λ x. x.blockno) (put_buf_self s new c) ∙ b;
      shows = view-put_buf s new ok_c ok_c' refl (λ e. (refl, refl));
    }

recycle-Got :
    {c : Cache} (a s : ℕ)
    → IsCoherent c
    → find_cached 1 a c.bufs c.order ≡ none
    → find_unused_buf c.bufs c.order ≡ some s
    → Got c
        (put_buf s
          (record (c.bufs s) { valid = false; dirty = false; dev = 1; blockno = a; refcnt = 1 })
          c)
        a
        s
recycle-Got {c} a s ok_c no_buf found =
    let (h, l) = find_unused_buf-some c.bufs c.order found in
    let new = record (c.bufs s) {
      valid = false;
      dirty = false;
      dev = 1;
      blockno = a;
      refcnt = 1;
    } in
    let clean : (c.bufs s).dirty ≡ false = ground (arith, h) in
    let fits : Fits c c.disk s new = record {
      in_list = λ e. l;
      alone = λ t ne e d. find_cached-none c.bufs c.order no_buf t (ok_c.in_list t d) d;
      on_disk = λ e. refl;
      agrees = λ v. absurd cc;
      dirty_valid = λ v. absurd cc;
      others = λ t ne e. refl;
    } in
    let ok_c' = put_buf-stays s new ok_c fits in
    record {
      coherent = ok_c';
      dev = ap (λ x. x.dev) (put_buf_self s new c);
      blockno = ap (λ x. x.blockno) (put_buf_self s new c);
      shows =
          view-put_buf s new ok_c ok_c' (sym clean)
            (λ e. absurd (let f : true ≡ false = sym e ∙ clean in cc));
    }

hit-Takes :
    {c : Cache} (a s : ℕ)
    → find_cached 1 a c.bufs c.order ≡ some s
    → Takes c (put_buf s (record (c.bufs s) { refcnt = ((c.bufs s).refcnt + 1) % 2 ^ 32 }) c) a s
hit-Takes {c} a s found =
    let new = record (c.bufs s) { refcnt = ((c.bufs s).refcnt + 1) % 2 ^ 32 } in
    record {
      others = put_buf_ne s new c;
      counts = ap (λ x. x.refcnt) (put_buf_self s new c);
      for_block = λ _. (find_cached-some c.bufs c.order found).1;
    }

recycle-Takes :
    {c : Cache} (a s : ℕ)
    → find_unused_buf c.bufs c.order ≡ some s
    → Takes c
        (put_buf s
          (record (c.bufs s) { valid = false; dirty = false; dev = 1; blockno = a; refcnt = 1 })
          c)
        a
        s
recycle-Takes {c} a s found =
    let new = record (c.bufs s) {
      valid = false;
      dirty = false;
      dev = 1;
      blockno = a;
      refcnt = 1;
    } in
    let unused = no_reference (c.bufs s) (find_unused_buf-some c.bufs c.order found).0 in
    record {
      others = put_buf_ne s new c;
      counts = ap (λ x. x.refcnt) (put_buf_self s new c) ∙ omega (arith, unused);
      for_block = λ used. absurd (used unused);
    }
  where
    no_reference : (b : Buf) → can_recycle b ≡ true → b.refcnt ≡ 0
    no_reference b h = ground (arith, h)

-- Block `a` has no buffer, and every buffer has a reference or is dirty.
abbrev pub NoBuffer : Cache → ℕ → Type 0
NoBuffer c a =
    (s : ℕ)
    → listed s c.order ≡ true
    → ((c.bufs s).dev ≡ 1 → (c.bufs s).blockno ≢ a)
      × (((c.bufs s).refcnt ≢ 0) ⊎ ((c.bufs s).dirty ≡ true))

in_use : (b : Buf) → can_recycle b ≡ false → (b.refcnt ≢ 0) ⊎ (b.dirty ≡ true)
in_use b h = elim (ℕ_discrete b.refcnt 0) [
  | yes free ↦ inr (ground (arith, h, free))
  | no used ↦ inl used
]

not_free : (b : Buf) → (b.refcnt ≢ 0) ⊎ (b.dirty ≡ true) → can_recycle b ≢ true
not_free b (inl used) h = ground (arith, used, h)
not_free b (inr dirt) h = ground (arith, dirt, h)

bget-panic : {c : Cache} (a : ℕ) → IsCoherent c → NoBuffer c a → bget 1 a c ≡ panic
unfolding bget
bget-panic {c} a ok_c full = elim (Option-cases (find_cached 1 a c.bufs c.order)) [
  | inr (s, found) ↦
      let (d, b) = find_cached-some c.bufs c.order found in
      absurd ((full s (ok_c.in_list s d)).0 d b)
  | inl no_buf ↦ elim (Option-cases (find_unused_buf c.bufs c.order)) [
    | inr (s, found) ↦
        let (free, l) = find_unused_buf-some c.bufs c.order found in
        absurd (not_free (c.bufs s) (full s l).1 free)
    | inl none_free ↦ rw (no_buf, bget) (rw (none_free, bget) refl)
  ]
]

bget_lem :
    {c : Cache} (a : ℕ)
    → IsCoherent c
    → ((s : ℕ) × (c' : Cache) × (bget 1 a c ≡ ok (s, c')) × Got c c' a s × Takes c c' a s)
      ⊎ ((bget 1 a c ≡ panic) × NoBuffer c a)
unfolding bget
bget_lem {c} a ok_c = elim (Option-cases (find_cached 1 a c.bufs c.order)) [
  | inr (s, found) ↦
      inl (s, hit s, rw (found, bget) refl, hit-Got a s ok_c found, hit-Takes a s found)
  | inl no_buf ↦ elim (Option-cases (find_unused_buf c.bufs c.order)) [
    | inr (s, found) ↦ inl (
      s,
      recycled s,
      rw (no_buf, bget) (rw (found, bget) refl),
      recycle-Got a s ok_c no_buf found,
      recycle-Takes a s found,
    )
    | inl full ↦ inr (
      rw (no_buf, bget) (rw (full, bget) refl),
      λ s l. (
        find_cached-none c.bufs c.order no_buf s l,
        in_use (c.bufs s) (find_unused_buf-none c.bufs c.order full s l),
      ),
    )
  ]
]
  where
    hit : ℕ → Cache
    hit s = put_buf s (record (c.bufs s) { refcnt = ((c.bufs s).refcnt + 1) % 2 ^ 32 }) c

    recycled : ℕ → Cache
    recycled s =
        put_buf s
          (record (c.bufs s) { valid = false; dirty = false; dev = 1; blockno = a; refcnt = 1 }) c

-- The read of `iderw`, into a buffer that is not valid.
iderw-read :
    {c : Cache} (n s : ℕ)
    → IsCoherent c
    → (c.bufs s).dev ≡ 1
    → (c.bufs s).valid ≡ false
    → (c.bufs s).blockno < n
    → (c' : Cache) × (iderw n s c ≡ ok c')
      × Got c c' (c.bufs s).blockno s
      × ((c'.bufs s).valid ≡ true)
      × ((t : ℕ) → t ≢ s → c'.bufs t ≡ c.bufs t)
      × ((c'.bufs s).refcnt ≡ (c.bufs s).refcnt)
unfolding iderw
iderw-read {c} n s ok_c d v lt =
    let clean : (c.bufs s).dirty ≡ false = elim (Bool-cases (c.bufs s).dirty) [
      | inl e ↦ absurd (let f : true ≡ false = sym (ok_c.dirty_valid s e) ∙ v in cc)
      | inr e ↦ e
    ] in
    let new = record (c.bufs s) { valid = true; contents = c.disk (c.bufs s).blockno } in
    let in_range : leb n (c.bufs s).blockno ≡ false = ground (arith, lt) in
    let fits : Fits c c.disk s new = record {
      in_list = ok_c.in_list s;
      alone = stays_alone s ok_c;
      on_disk = λ e. d;
      agrees = λ e e'. refl;
      dirty_valid = λ e. refl;
      others = λ t ne e. refl;
    } in
    let ok_c' = put_buf-stays s new ok_c fits in
    (
      put_buf s new c,
      rw (v, d, in_range, clean) refl,
      record {
        coherent = ok_c';
        dev = ap (λ x. x.dev) (put_buf_self s new c) ∙ d;
        blockno = ap (λ x. x.blockno) (put_buf_self s new c);
        shows =
            view-put_buf s new ok_c ok_c' refl
              (λ e. absurd (let f : true ≡ false = sym e ∙ clean in cc));
      },
      ap (λ x. x.valid) (put_buf_self s new c),
      put_buf_ne s new c,
      ap (λ x. x.refcnt) (put_buf_self s new c),
    )

-- What `bread` gives for block `a`.
pub record Read (c c' : Cache) (a s : ℕ) : Type 0 where
  pub got : Got c c' a s
  pub valid : (c'.bufs s).valid ≡ true
  pub contents : (c'.bufs s).contents ≡ view c a
  pub takes : Takes c c' a s

valid-contents :
    {c c' : Cache} (a s : ℕ)
    → Got c c' a s
    → (c'.bufs s).valid ≡ true
    → Takes c c' a s
    → Read c c' a s
valid-contents {c} {c'} a s g v takes = record {
  got = g;
  takes = takes;
  valid = v;
  contents = sym (view_held c' g.coherent s g.dev ∙ rw v refl) ∙ ap (view c') g.blockno ∙ g.shows a;
}

bread-panic : (n a : ℕ) (c : Cache) → IsCoherent c → NoBuffer c a → bread n 1 a c ≡ panic
unfolding bread
bread-panic n a c ok_c full = rw (bget-panic a ok_c full) refl

bread-runs :
    (n a : ℕ) (c : Cache)
    → IsCoherent c
    → a < n
    → ((s : ℕ) × (c' : Cache) × (bread n 1 a c ≡ ok (s, c')) × Read c c' a s)
      ⊎ ((bread n 1 a c ≡ panic) × NoBuffer c a)
unfolding bread
bread-runs n a c ok_c lt = elim (bget_lem a ok_c) [
  | inr (e, full) ↦ inr (rw e refl, full)
  | inl (s, c', e, g, takes) ↦ elim (Bool-cases (c'.bufs s).valid) [
    | inl v ↦ inl (s, c', rw (e, v) refl, valid-contents a s g v takes)
    | inr v ↦
        let (c'', e', g', v', others, same_count) =
          iderw-read n s g.coherent g.dev v (subst (λ x. x < n) (sym g.blockno) lt) in
        inl (
          s,
          c'',
          rw (e, v, e') refl,
          valid-contents a s
              (record {
                coherent = g'.coherent;
                dev = g'.dev;
                blockno = g'.blockno ∙ g.blockno;
                shows = λ b. g'.shows b ∙ g.shows b;
              })
              v'
              (record {
                others = λ t ne. others t ne ∙ takes.others t ne;
                counts = same_count ∙ takes.counts;
                for_block = takes.for_block;
              }),
        )
  ]
]

-- On a coherent cache `bread` of a block of the disk gives a valid buffer of that block whose contents
-- are what the cache shows of it, and one reference more to it; the buffer was for that block before,
-- or had no reference. All other buffers stay as they are, and so does what the cache shows of any
-- block. It panics if, and only if, the block has no buffer and every buffer is referenced or dirty.
pub bread_lem :
    (n a : ℕ) (c : Cache)
    → IsCoherent c
    → a < n
    → (((s : ℕ) × (c' : Cache) × (bread n 1 a c ≡ ok (s, c')) × Read c c' a s)
        ⊎ ((bread n 1 a c ≡ panic) × NoBuffer c a))
      × (NoBuffer c a → bread n 1 a c ≡ panic)
bread_lem n a c ok_c lt = (bread-runs n a c ok_c lt, λ full. bread-panic n a c ok_c full)
