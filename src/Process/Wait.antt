-- ===== src/Process/Wait.antt =====
-- `wait` keeps the table consistent: the slot that a zombie gives back.
use os182_ass.Prelude.{
  ◌==◌, Bool-cases, Option-cases, ℕ, zero, suc, ◌+◌, ◌≤◌, ◌<◌, ◌≡◌, refl, sym, ap, ◌∙◌, ◌≢◌, inl,
  inr, Bool, true, false, not, ◌||◌, none, some, arith, ℕ_discrete,
}
use os182_ass.Process.{
  nproc, unused, sleeping, is_zombie, proc_at, Table, is_child, put_entry, wait_scan, WaitStop,
  reaped, wait_failed, wait_sleeps, wait, sleep,
}
use os182_ass.Process.Keep.{put_live-IsConsistent}
use os182_ass.Process.Waiting.{is_live, IsConsistent}

-- `wait`: the loop finds a zombie child, or there is none.
wait_scan-some :
    (rounds i : ℕ) (havekids : Bool) (cur : ℕ) (t : Table) {k : ℕ}
    → (wait_scan rounds i havekids cur t).0 ≡ some k
    → (k < i + rounds) × (is_child cur (t.proc k) ≡ true) × (is_zombie (t.proc k).state ≡ true)
unfolding wait_scan
wait_scan-some zero i havekids cur t e = cc
wait_scan-some (suc rounds) i havekids cur t {k} e = elim (Bool-cases (is_child cur (t.proc i))) [
  | inr no_child ↦
      let (lt, kid, gone) =
        wait_scan-some rounds (suc i) havekids cur t {k = k} (ground (arith, e, no_child)) in
      (omega (arith, lt), kid, gone)
  | inl child ↦ elim (Bool-cases (is_zombie (t.proc i).state)) [
    | inr alive ↦
        let (lt, kid, gone) =
          wait_scan-some rounds (suc i) true cur t {k = k} (ground (arith, e, child, alive)) in
        (omega (arith, lt), kid, gone)
    | inl dead ↦
        let same : i ≡ k = ground (arith, e, child, dead) in
        (
          omega (arith, same),
          ap (λ x. is_child cur (t.proc x)) (sym same) ∙ child,
          ap (λ x. is_zombie (t.proc x).state) (sym same) ∙ dead,
        )
  ]
]

wait_scan-none :
    (rounds i : ℕ) (havekids : Bool) (cur : ℕ) (t : Table)
    → (wait_scan rounds i havekids cur t).0 ≡ none
    → (c : ℕ) → i ≤ c
    → c < i + rounds
    → is_child cur (t.proc c) ≡ true
    → is_zombie (t.proc c).state ≡ false
unfolding wait_scan
wait_scan-none zero i havekids cur t e c lo hi kid = absurd (omega arith)
wait_scan-none (suc rounds) i havekids cur t e c lo hi kid = elim (ℕ_discrete c i) [
  | yes same ↦ elim (Bool-cases (is_zombie (t.proc i).state)) [
    | inr alive ↦ ap (λ x. is_zombie (t.proc x).state) same ∙ alive
    | inl dead ↦
        let child : is_child cur (t.proc i) ≡ true =
          ap (λ x. is_child cur (t.proc x)) (sym same) ∙ kid in
        absurd (let h : some i ≡ none = ground (arith, e, child, dead) in cc)
  ]
  | no other ↦ elim (Bool-cases (is_child cur (t.proc i))) [
    | inr no_child ↦
        wait_scan-none rounds (suc i) havekids cur t (ground (arith, e, no_child)) c (omega arith)
          (omega arith) kid
    | inl child ↦ elim (Bool-cases (is_zombie (t.proc i).state)) [
      | inr alive ↦
          wait_scan-none rounds (suc i) true cur t (ground (arith, e, child, alive)) c (omega arith)
            (omega arith) kid
      | inl dead ↦ absurd (let h : some i ≡ none = ground (arith, e, child, dead) in cc)
    ]
  ]
]

-- A zombie gives its slot back.
reaped-IsConsistent :
    {t : Table} (i : ℕ)
    → IsConsistent t
    → i < nproc
    → is_zombie (t.proc i).state ≡ true
    → IsConsistent
        (put_entry i (record (t.proc i) { pid = 0; parent = none; killed = 0; state = unused }) t)
unfolding put_entry
reaped-IsConsistent {t} i v lt dead = record {
  init_small = v.init_small;
  init_live = ground (arith, v.init_live, dead);
  init_parent = ground (arith, v.init_parent);
  parents = λ j jl here ne.
      let other : j ≢ i = λ eq. absurd (ground (arith, here, eq)) in
      let h = v.parents j jl (ground (arith, here, other)) ne in
      record {
        parent = h.parent;
        here = ground (arith, h.here, other);
        small = h.small;
        live = ground (arith, h.live, dead);
      };
  not_own = λ j. ground (arith, v.not_own j);
  no_lost = λ c p cl z kid.
      let other : c ≢ i = λ eq. absurd (ground (arith, z, eq)) in
      ground (arith, v.no_lost c p cl (ground (arith, z, other)) (ground (arith, kid, other)));
}

abbrev pub left_by : WaitStop → Table
left_by (reaped pid t) = t
left_by (wait_failed t) = t
left_by (wait_sleeps t) = t

-- However `wait` of a live process stops, the table is valid: it sleeps only if no child of it is a
-- zombie.
pub wait-IsConsistent :
    (cur : ℕ) {t : Table}
    → IsConsistent t
    → is_live (t.proc cur).state ≡ true
    → IsConsistent (left_by (wait cur t))
unfolding wait sleep
wait-IsConsistent cur {t} v live = elim (Option-cases (wait_scan nproc 0 false cur t).0) [
  | inr (i, e) ↦
      let (lt, kid, dead) = wait_scan-some nproc 0 false cur t e in
      rw (e, wait) (reaped-IsConsistent i v lt dead)
  | inl e ↦
      elim (Bool-cases (not (wait_scan nproc 0 false cur t).1 || not ((t.proc cur).killed == 0))) [
        | inl quits ↦ rw (e, quits, wait) v
        | inr stays ↦ rw (e, stays, wait) (sleeper e)
      ]
]
  where
    sleeper : (wait_scan nproc 0 false cur t).0 ≡ none → IsConsistent (sleep cur (proc_at cur) t)
    sleeper e = put_live-IsConsistent v cur live sleeping (some (proc_at cur)) refl (λ c lt z kid.
        absurd (
          let alive = wait_scan-none nproc 0 false cur t e c (omega arith) lt kid in
          ground (arith, z, alive)))
