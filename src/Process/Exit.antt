-- ===== src/Process/Exit.antt =====
-- `exit` hands the children of the process to init, and no parent sleeps on.
use os182_ass.Prelude.{
  Bool-cases, ℕ, zero, suc, ◌+◌, ◌<◌, ◌≡◌, refl, sym, ap, ◌∙◌, subst, ◌≢◌, inl, inr, true, false,
  Option, some, arith, ℕ_discrete,
}
use os182_ass.Prelude.Outcome.{ok}
use os182_ass.Process.{
  nproc, zombie, is_zombie, Chan, proc_at, Table, is_child, put_entry, wake, wakeup1, proc_chan,
  reparent_loop, exit,
}
use os182_ass.Process.Waiting.{
  is_live, is_present, in_wait, HasParent, IsConsistent, wake-parent, wake-is_live, wake-is_zombie,
  wake-in_wait, wake-in_wait_self,
}
use os182_ass.Process.Leaving.{
  Leaving, is_child-wake, present-wake, HasParent-wakeup1, Leaving-wakeup1, Leaving-give,
  Leaving-close,
}

Leaving-skip :
    {cur i : ℕ} {t : Table}
    → Leaving cur i nproc t
    → is_child cur (t.proc i) ≡ false
    → Leaving cur (suc i) nproc t
Leaving-skip {cur} {i} {t} l other = record {
  init_small = l.init_small;
  init_live = l.init_live;
  not_init = l.not_init;
  cur_live = l.cur_live;
  parents = l.parents;
  not_own = l.not_own;
  init_parent = l.init_parent;
  given = λ j lt. elim (ℕ_discrete j i) [
    | yes same ↦ ap (λ x. is_child cur (t.proc x)) same ∙ other
    | no ne ↦ l.given j (omega arith)
  ];
  no_lost = l.no_lost;
  parent_awake = l.parent_awake;
}

-- The table with child `i` given to init.
abbrev given_to_init : ℕ → Table → Table
given_to_init i t = put_entry i (record (t.proc i) { parent = some t.initproc }) t

Leaving-given :
    {cur i : ℕ} {t : Table}
    → Leaving cur i nproc t
    → is_child cur (t.proc i) ≡ true
    → is_zombie (t.proc i).state ≡ false
    → Leaving cur (suc i) nproc (given_to_init i t)
unfolding put_entry
Leaving-given {cur} {i} {t} l child alive =
    Leaving-close (Leaving-give l child) (ground arith) (λ z. absurd (ground (arith, z, alive)))

Leaving-woken :
    {cur i : ℕ} {t : Table}
    → Leaving cur i nproc t
    → is_child cur (t.proc i) ≡ true
    → Leaving cur (suc i) nproc (wakeup1 (some (proc_at t.initproc)) (given_to_init i t))
unfolding put_entry wakeup1
Leaving-woken {cur} {i} {t} l child =
    Leaving-close (Leaving-wakeup1 chan (Leaving-give l child))
      (wake-parent chan ((given_to_init i t).proc i) ∙ ground arith)
      (λ z. wake-in_wait_self t.initproc ((given_to_init i t).proc t.initproc))
  where
    chan : Option Chan
    chan = some (proc_at t.initproc)

reparent_loop-Leaving :
    (rounds i cur : ℕ) (t : Table)
    → i + rounds ≡ nproc
    → Leaving cur i nproc t
    → Leaving cur nproc nproc (reparent_loop rounds i cur t)
unfolding reparent_loop
reparent_loop-Leaving zero i cur t e l = subst (λ k. Leaving cur k nproc t) (omega arith) l
reparent_loop-Leaving (suc rounds) i cur t e l = elim (Bool-cases (is_child cur (t.proc i))) [
  | inr other ↦
      rw other (reparent_loop-Leaving rounds (suc i) cur t (omega arith) (Leaving-skip l other))
  | inl child ↦ elim (Bool-cases (is_zombie (t.proc i).state)) [
    | inl z ↦
        rw (child, z)
          (reparent_loop-Leaving rounds (suc i) cur
            (wakeup1 (some (proc_at t.initproc)) (given_to_init i t)) (omega arith)
            (Leaving-woken l child))
    | inr z ↦
        rw (child, z)
          (reparent_loop-Leaving rounds (suc i) cur (given_to_init i t) (omega arith)
            (Leaving-given l child z))
  ]
]

-- The start: the parent is awake.
Leaving-start :
    {cur : ℕ} {t : Table}
    → IsConsistent t
    → cur ≢ t.initproc
    → is_live (t.proc cur).state ≡ true
    → Leaving cur 0 nproc (wakeup1 (proc_chan (t.proc cur).parent) t)
unfolding wakeup1
Leaving-start {cur} {t} v ne live = record {
  init_small = v.init_small;
  init_live = wake-is_live chan (t.proc t.initproc) ∙ v.init_live;
  not_init = ne;
  cur_live = wake-is_live chan (t.proc cur) ∙ live;
  init_parent = wake-parent chan (t.proc t.initproc) ∙ v.init_parent;
  parents = λ j lt here n.
      HasParent-wakeup1 chan j (v.parents j lt (sym (present-wake chan (t.proc j)) ∙ here) n);
  not_own = λ j. is_child-wake j chan (t.proc j) ∙ v.not_own j;
  given = λ j lt. absurd (omega arith);
  no_lost = λ c p lt n nh z child. wake-in_wait chan (t.proc p) p (
      v.no_lost c p lt (sym (wake-is_zombie chan (t.proc c)) ∙ z)
        (sym (is_child-wake p chan (t.proc c)) ∙ child));
  parent_awake = λ p child. woken p (sym (is_child-wake p chan (t.proc cur)) ∙ child);
}
  where
    chan : Option Chan
    chan = proc_chan (t.proc cur).parent

    woken : (p : ℕ) → is_child p (t.proc cur) ≡ true → in_wait p (wake chan (t.proc p)) ≡ false
    woken p child =
        let up : (t.proc cur).parent ≡ some p = ground (arith, child) in
        let at : chan ≡ some (proc_at p) = ap proc_chan up in rw at (wake-in_wait_self p (t.proc p))

Leaving-end :
    {cur : ℕ} {t : Table}
    → cur < nproc
    → Leaving cur nproc nproc t
    → IsConsistent (put_entry cur (record (t.proc cur) { state = zombie }) t)
unfolding put_entry
Leaving-end {cur} {t} lt l = record {
  init_small = l.init_small;
  init_live = ground (arith, l.init_live, l.not_init);
  init_parent = ground (arith, l.init_parent);
  parents = λ j jl here ne. parent_of j jl (was_present j here) ne;
  not_own = λ j. ground (arith, l.not_own j);
  no_lost = λ c p cl z kid. awake c p cl z kid;
}
  where
    left : Table
    left = put_entry cur (record (t.proc cur) { state = zombie }) t

    was_present :
        (j : ℕ) → is_present (left.proc j).state ≡ true → is_present (t.proc j).state ≡ true
    was_present j here = ground (arith, here, l.cur_live)

    parent_of :
        (j : ℕ) → j < nproc → is_present (t.proc j).state ≡ true → j ≢ t.initproc → HasParent left j
    parent_of j jl here ne =
        let h = l.parents j jl here ne in
        let other : h.parent ≢ cur = λ e. absurd (ground (arith, h.here, l.given j jl, e)) in
        record {
          parent = h.parent;
          here = ground (arith, h.here);
          small = h.small;
          live = ground (arith, h.live, other);
        }

    awake :
        (c p : ℕ)
        → c < nproc
        → is_zombie (left.proc c).state ≡ true
        → is_child p (left.proc c) ≡ true
        → in_wait p (left.proc p) ≡ false
    awake c p cl z kid = elim (ℕ_discrete p cur) [
      | yes same ↦ ground (arith, same)
      | no other ↦ elim (ℕ_discrete c cur) [
        | yes own ↦ let a = l.parent_awake p (ground (arith, kid, own)) in ground (arith, a, other)
        | no ne ↦
            let a =
              l.no_lost c p cl other (omega (arith, cl)) (ground (arith, z, ne))
                (ground (arith, kid, ne)) in
            ground (arith, a, other)
      ]
    ]

-- `exit` of a running process other than init keeps the table valid.
pub exit-IsConsistent :
    {cur : ℕ} {t : Table}
    → IsConsistent t
    → cur < nproc
    → cur ≢ t.initproc
    → is_live (t.proc cur).state ≡ true
    → (t' : Table) × (exit cur t ≡ ok t') × IsConsistent t'
unfolding exit
exit-IsConsistent {cur} {t} v lt ne live =
    let t' = reparent_loop nproc 0 cur (wakeup1 (proc_chan (t.proc cur).parent) t) in
    let l =
      reparent_loop-Leaving nproc 0 cur (wakeup1 (proc_chan (t.proc cur).parent) t) refl
        (Leaving-start v ne live) in
    (
      put_entry cur (record (t'.proc cur) { state = zombie }) t',
      ground (arith, ne),
      Leaving-end lt l,
    )
