-- ===== src/Process/Fork.antt =====
-- `fork` keeps the table consistent: the slot that a child takes.
use os182_ass.Prelude.{
  if◌then◌else◌, Bool-cases, Option-cases, ℕ, zero, suc, ◌+◌, ◌<◌, ◌≡◌, refl, sym, ap, ◌∙◌, subst,
  ◌≢◌, ◌⊎◌, inl, inr, Bool, true, false, Option, none, some, arith, ℕ_discrete,
}
use os182_ass.Process.{
  nproc, unused, embryo, runnable, is_unused, is_sleeping, is_zombie, TableEntry, Table, is_child,
  put_entry, find_unused, allocproc, fork,
}
use os182_ass.Process.Waiting.{is_live, is_present, in_wait, HasParent, IsConsistent}

pub find_unused-some :
    (rounds i : ℕ) (t : Table) {k : ℕ}
    → find_unused rounds i t ≡ some k
    → (k < i + rounds) × (is_unused (t.proc k).state ≡ true)
unfolding find_unused
find_unused-some zero i t e = cc
find_unused-some (suc rounds) i t {k} e = elim (Bool-cases (is_unused (t.proc i).state)) [
  | inl h ↦
      let same : i ≡ k = ground (arith, e, h) in
      (omega (arith, same), ap (λ x. is_unused (t.proc x).state) (sym same) ∙ h)
  | inr h ↦
      let (lt, u) = find_unused-some rounds (suc i) t {k = k} (ground (arith, e, h)) in
      (omega (arith, lt), u)
]

-- The new entry is vacant too, or a runnable child of a live process.
abbrev Becomes : Table → ℕ → TableEntry → Type 0
Becomes t i e =
    ((is_present e.state ≡ false) × (e.parent ≡ (t.proc i).parent))
    ⊎ ((e.state ≡ runnable)
        × (p : ℕ) × (e.parent ≡ some p)
        × (p < nproc)
        × (is_live (t.proc p).state ≡ true))

-- A slot that holds neither a live process nor a zombie is written: it stays so, or becomes a
-- runnable child of a live process.
record Newborn (t : Table) (i : ℕ) (e : TableEntry) : Type 0 where
  not_live : is_live (t.proc i).state ≡ false
  not_dead : is_zombie (t.proc i).state ≡ false
  kind : Becomes t i e

put_new-IsConsistent :
    {t : Table} (i : ℕ) (e : TableEntry)
    → IsConsistent t
    → Newborn t i e
    → IsConsistent (put_entry i e t)
unfolding put_entry
put_new-IsConsistent {t} i e v b = record {
  init_small = v.init_small;
  init_live = ground (arith, v.init_live, b.not_live);
  init_parent = ground (arith, v.init_parent, v.init_live, b.not_live);
  parents = λ j lt here ne. parent_of j lt here ne b.kind;
  not_own = λ j. own j b.kind;
  no_lost = λ c p lt z kid. lost c p lt z kid b.kind;
}
  where
    after : Table
    after = put_entry i e t

    keep : {j : ℕ} → HasParent t j → (after.proc j).parent ≡ (t.proc j).parent → HasParent after j
    keep h same = record {
      parent = h.parent;
      here = same ∙ h.here;
      small = h.small;
      live = ground (arith, h.live, b.not_live);
    }

    parent_of :
        (j : ℕ)
        → j < nproc
        → is_present (after.proc j).state ≡ true
        → j ≢ t.initproc
        → Becomes t i e
        → HasParent after j
    parent_of j lt here ne (inl (gone, same)) =
        let other : j ≢ i = λ eq. absurd (ground (arith, here, eq, gone)) in
        keep (v.parents j lt (ground (arith, here, other)) ne) (ground (arith, other))
    parent_of j lt here ne (inr (up, p, to, small, alive)) = elim (ℕ_discrete j i) [
      | no other ↦ keep (v.parents j lt (ground (arith, here, other)) ne) (ground (arith, other))
      | yes same ↦ record {
        parent = p;
        here = ground (arith, same, to);
        small = small;
        live = ground (arith, alive, b.not_live);
      }
    ]

    own : (j : ℕ) → Becomes t i e → is_child j (after.proc j) ≡ false
    own j (inl (gone, same)) = ground (arith, same, v.not_own j)
    own j (inr (up, p, to, small, alive)) =
        let other : p ≢ i = λ eq. absurd (ground (arith, alive, eq, b.not_live)) in
        ground (arith, to, other, v.not_own j)

    quiet : Becomes t i e → (is_zombie e.state ≡ false) × (is_sleeping e.state ≡ false)
    quiet (inl (gone, same)) = (ground (arith, gone), ground (arith, gone))
    quiet (inr (up, p, to, small, alive)) = (rw up, rw up)

    lost :
        (c p : ℕ)
        → c < nproc
        → is_zombie (after.proc c).state ≡ true
        → is_child p (after.proc c) ≡ true
        → Becomes t i e
        → in_wait p (after.proc p) ≡ false
    lost c p lt z kid kind =
        let (alive, sleepless) = quiet kind in
        let other : c ≢ i = λ eq. absurd (ground (arith, z, eq, alive)) in
        ground (
          arith,
          v.no_lost c p lt (ground (arith, z, other)) (ground (arith, kid, other)),
          sleepless,
        )

nextpid-IsConsistent :
    {t : Table} (n : ℕ) → IsConsistent t → IsConsistent (record t { nextpid = n })
nextpid-IsConsistent n v = record {
  init_small = v.init_small;
  init_live = v.init_live;
  init_parent = v.init_parent;
  parents = λ j lt here ne.
      let h = v.parents j lt here ne in
      record { parent = h.parent; here = h.here; small = h.small; live = h.live };
  not_own = v.not_own;
  no_lost = v.no_lost;
}

-- What `allocproc` leaves: a valid table, and, if it found a slot, an embryo in it.
record Allocated (stack : Bool) (t : Table) : Type 0 where
  table : Table
  slot : Option ℕ
  runs : allocproc stack t ≡ (slot, table)
  valid : IsConsistent table
  found : (i : ℕ) → slot ≡ some i → (i < nproc) × ((table.proc i).state ≡ embryo)
  others : (j : ℕ) → is_live (t.proc j).state ≡ true → is_live (table.proc j).state ≡ true

allocproc-Allocated : (stack : Bool) {t : Table} → IsConsistent t → Allocated stack t
unfolding allocproc put_entry
allocproc-Allocated stack {t} v = elim (Option-cases (find_unused nproc 0 t)) [
  | inl e ↦ record {
    table = t;
    slot = none;
    runs = rw (e, allocproc) refl;
    valid = v;
    found = λ i same. absurd cc;
    others = λ j live. live;
  }
  | inr (i, e) ↦
      let (lt, free) = find_unused-some nproc 0 t e in
      let entry : TableEntry = record (t.proc i) {
        state = if stack then embryo else unused;
        pid = t.nextpid;
      } in
      record {
        table = put_entry i entry (record t { nextpid = t.nextpid + 1 });
        slot = if stack then some i else none;
        runs = rw (e, allocproc) refl;
        valid = put_new-IsConsistent i entry (nextpid-IsConsistent (t.nextpid + 1) v) (record {
          not_live = ground (arith, free);
          not_dead = ground (arith, free);
          kind = inl (ground arith, refl);
        });
        found = λ k same. (ground (arith, same, lt), ground (arith, same));
        others = λ j live. ground (arith, live, free);
      }
]

fork-none :
    (cur : ℕ) (stack copied : Bool) (t t' : Table)
    → allocproc stack t ≡ (none, t')
    → (fork cur stack copied t).1 ≡ t'
unfolding fork
fork-none cur stack copied t t' e =
    rw (ap (λ (r : Option ℕ × Table). r.0) e, ap (λ (r : Option ℕ × Table). r.1) e, fork) refl

fork-some :
    (cur : ℕ) (stack copied : Bool) (t t' : Table) (i : ℕ)
    → allocproc stack t ≡ (some i, t')
    → (fork cur stack copied t).1 ≡ (
        if copied
        then put_entry i (record (t'.proc i) { parent = some cur; state = runnable }) t'
        else put_entry i (record (t'.proc i) { state = unused }) t')
unfolding fork
fork-some cur stack true t t' i e =
    rw (ap (λ (r : Option ℕ × Table). r.0) e, ap (λ (r : Option ℕ × Table). r.1) e, fork) refl
fork-some cur stack false t t' i e =
    rw (ap (λ (r : Option ℕ × Table). r.0) e, ap (λ (r : Option ℕ × Table). r.1) e, fork) refl

-- `fork` by a live process keeps the table valid, also where it fails.
pub fork-IsConsistent :
    (cur : ℕ) (stack copied : Bool) {t : Table}
    → IsConsistent t
    → cur < nproc
    → is_live (t.proc cur).state ≡ true
    → IsConsistent (fork cur stack copied t).1
fork-IsConsistent cur stack copied {t} v small live = elim (Option-cases a.slot) [
  | inl e ↦
      subst IsConsistent
        (sym (fork-none cur stack copied t a.table (a.runs ∙ ap (λ o. (o, a.table)) e))) a.valid
  | inr (i, e) ↦
      subst IsConsistent
        (sym (fork-some cur stack copied t a.table i (a.runs ∙ ap (λ o. (o, a.table)) e)))
        (born i copied (a.found i e).1)
]
  where
    a : Allocated stack t
    a = allocproc-Allocated stack v

    born :
        (i : ℕ) (copied : Bool)
        → (a.table.proc i).state ≡ embryo
        → IsConsistent (
            if copied
            then put_entry i
                (record (a.table.proc i) { parent = some cur; state = runnable })
                a.table
            else put_entry i (record (a.table.proc i) { state = unused }) a.table)
    born i true new =
        put_new-IsConsistent i (record (a.table.proc i) { parent = some cur; state = runnable })
          a.valid
          (record {
            not_live = rw new;
            not_dead = rw new;
            kind = inr (refl, cur, refl, small, a.others cur live);
          })
    born i false new =
        put_new-IsConsistent i (record (a.table.proc i) { state = unused }) a.valid
          (record { not_live = rw new; not_dead = rw new; kind = inl (refl, refl) })
