-- ===== src/Process/Keep.antt =====
-- The other operations keep the table valid.
use os182_ass.Prelude.{
  ◌==◌, if◌then◌else◌, Bool-cases, ℕ, zero, suc, ◌<◌, ◌≡◌, refl, sym, ap, ◌∙◌, subst, inl, inr,
  true, false, Option, none, some, arith, ℕ_discrete,
}
use os182_ass.Process.{
  nproc, ProcState, sleeping, runnable, running, is_sleeping, is_zombie, Chan, object, TableEntry,
  Table, is_child, put_entry, wakeup1, sleep, wake_tidy, schedule, yield, kill_loop, kill,
}
use os182_ass.Process.Waiting.{
  is_live, in_wait, HasParent, IsConsistent, wake-parent, wake-is_live, wake-is_zombie,
  wake-in_wait,
}
use os182_ass.Process.Leaving.{is_child-wake, present-wake, HasParent-wakeup1}

-- An entry changes, but not its parent, and not whether it is live or a zombie.
record Alike (t : Table) (i : ℕ) (e : TableEntry) : Type 0 where
  parent : e.parent ≡ (t.proc i).parent
  live : is_live e.state ≡ is_live (t.proc i).state
  dead : is_zombie e.state ≡ is_zombie (t.proc i).state
  awake :
      (c : ℕ)
      → c < nproc
      → is_zombie (t.proc c).state ≡ true
      → is_child i (t.proc c) ≡ true
      → in_wait i e ≡ false

put_entry-HasParent :
    {t : Table} {i : ℕ} (e : TableEntry) (j : ℕ)
    → Alike t i e
    → HasParent t j
    → HasParent (put_entry i e t) j
unfolding put_entry
put_entry-HasParent e j a h = record {
  parent = h.parent;
  here = ground (arith, h.here, a.parent);
  small = h.small;
  live = ground (arith, h.live, a.live);
}

put_entry-IsConsistent :
    {t : Table} (i : ℕ) (e : TableEntry)
    → IsConsistent t
    → Alike t i e
    → IsConsistent (put_entry i e t)
unfolding put_entry
put_entry-IsConsistent {t} i e v a = record {
  init_small = v.init_small;
  init_live = ground (arith, v.init_live, a.live);
  init_parent = ground (arith, v.init_parent, a.parent);
  parents = λ j lt here ne.
      put_entry-HasParent e j a (v.parents j lt (ground (arith, here, a.live, a.dead)) ne);
  not_own = λ j. ground (arith, v.not_own j, a.parent);
  no_lost =
      λ c p lt z kid. awake c p lt (ground (arith, z, a.dead)) (ground (arith, kid, a.parent));
}
  where
    awake :
        (c p : ℕ)
        → c < nproc
        → is_zombie (t.proc c).state ≡ true
        → is_child p (t.proc c) ≡ true
        → in_wait p ((put_entry i e t).proc p) ≡ false
    awake c p lt z kid = elim (ℕ_discrete p i) [
      | yes same ↦
          let kid' : is_child i (t.proc c) ≡ true =
            ap (λ x. is_child x (t.proc c)) (sym same) ∙ kid in
          ground (arith, same, a.awake c lt z kid')
      | no other ↦ ground (arith, other, v.no_lost c p lt z kid)
    ]

pub wakeup1-IsConsistent :
    (chan : Option Chan) {t : Table} → IsConsistent t → IsConsistent (wakeup1 chan t)
unfolding wakeup1
wakeup1-IsConsistent chan {t} v = record {
  init_small = v.init_small;
  init_live = wake-is_live chan (t.proc t.initproc) ∙ v.init_live;
  init_parent = wake-parent chan (t.proc t.initproc) ∙ v.init_parent;
  parents = λ j lt here n.
      HasParent-wakeup1 chan j (v.parents j lt (sym (present-wake chan (t.proc j)) ∙ here) n);
  not_own = λ j. is_child-wake j chan (t.proc j) ∙ v.not_own j;
  no_lost = λ c p lt z child. wake-in_wait chan (t.proc p) p (
      v.no_lost c p lt (sym (wake-is_zombie chan (t.proc c)) ∙ z)
        (sym (is_child-wake p chan (t.proc c)) ∙ child));
}

module _ {t : Table} (v : IsConsistent t) (i : ℕ) (live : is_live (t.proc i).state ≡ true) where
  alive-not_zombie : is_zombie (t.proc i).state ≡ false
  alive-not_zombie = ground (arith, live)

  -- A live process gets another state in which it is live.
  pub put_live-IsConsistent :
      (s : ProcState) (chan : Option Chan)
      → is_live s ≡ true
      → ((c : ℕ)
          → c < nproc
          → is_zombie (t.proc c).state ≡ true
          → is_child i (t.proc c) ≡ true
          → in_wait i (record (t.proc i) { state = s; chan = chan }) ≡ false)
      → IsConsistent (put_entry i (record (t.proc i) { state = s; chan = chan }) t)
  put_live-IsConsistent s chan alive awake =
      put_entry-IsConsistent i (record (t.proc i) { state = s; chan = chan }) v
        (record {
          parent = refl;
          live = alive ∙ sym live;
          dead = ground (arith, alive, alive-not_zombie);
          awake = awake;
        })

  pub schedule-IsConsistent : IsConsistent (schedule i t)
  unfolding schedule
  schedule-IsConsistent = put_live-IsConsistent running (t.proc i).chan refl (λ c lt z kid. refl)

  pub yield-IsConsistent : IsConsistent (yield i t)
  unfolding yield
  yield-IsConsistent = put_live-IsConsistent runnable (t.proc i).chan refl (λ c lt z kid. refl)

  -- A process that sleeps on something else than a process does not wait for children.
  pub sleep-IsConsistent : (a : ℕ) → IsConsistent (sleep i (object a) t)
  unfolding sleep
  sleep-IsConsistent a = put_live-IsConsistent sleeping (some (object a)) refl (λ c lt z kid. refl)

  pub wake_tidy-IsConsistent : IsConsistent (wake_tidy i t)
  unfolding wake_tidy
  wake_tidy-IsConsistent =
      put_live-IsConsistent (t.proc i).state none live (λ c lt z kid. ground arith)

kill_entry-Alike :
    {t : Table} (v : IsConsistent t) (i : ℕ)
    → let e = record (t.proc i) { killed = 1 } in
      Alike t i (if is_sleeping e.state then record e { state = runnable } else e)
kill_entry-Alike {t} v i = elim (Bool-cases (is_sleeping (t.proc i).state)) [
  | inl s ↦ rw s (record {
    parent = refl;
    live = ground (arith, s);
    dead = ground (arith, s);
    awake = λ c lt z kid. refl;
  })
  | inr s ↦ rw s (record { parent = refl; live = refl; dead = refl; awake = λ c lt z kid. rw s })
]

kill_loop-IsConsistent :
    (rounds i pid : ℕ) {t t' : Table}
    → IsConsistent t
    → kill_loop rounds i pid t ≡ some t'
    → IsConsistent t'
unfolding kill_loop
kill_loop-IsConsistent zero i pid v e = cc
kill_loop-IsConsistent (suc rounds) i pid {t} {t'} v e = elim (Bool-cases ((t.proc i).pid == pid)) [
  | inl h ↦
      subst IsConsistent (ground (arith, e, h))
        (put_entry-IsConsistent i _ v (kill_entry-Alike v i))
  | inr h ↦ kill_loop-IsConsistent rounds (suc i) pid v (ground (arith, e, h))
]

pub kill-IsConsistent :
    (pid : ℕ) {t t' : Table} → IsConsistent t → kill pid t ≡ some t' → IsConsistent t'
unfolding kill
kill-IsConsistent pid v e = kill_loop-IsConsistent nproc 0 pid v e
