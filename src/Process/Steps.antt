-- ===== src/Process/Steps.antt =====
-- The steps of all processes, in any order.
use os182_ass.Prelude.{ℕ, ◌<◌, ◌≡◌, refl, sym, ◌∙◌, subst, ◌≢◌, Bool, true, some, arith}
use os182_ass.Prelude.Outcome.{ok}
use os182_ass.Process.{
  nproc, ProcState, runnable, running, object, Table, fork, wakeup1, wait, sleep, wake_tidy,
  schedule, yield, kill, exit, userinit,
}
use os182_ass.Process.Waiting.{is_live, IsConsistent}
use os182_ass.Process.Exit.{exit-IsConsistent}
use os182_ass.Process.Keep.{
  wakeup1-IsConsistent, schedule-IsConsistent, yield-IsConsistent, sleep-IsConsistent,
  wake_tidy-IsConsistent, kill-IsConsistent,
}
use os182_ass.Process.Fork.{fork-IsConsistent}
use os182_ass.Process.Wait.{left_by, wait-IsConsistent}

-- One step: the scheduler picks a runnable process, or the running process `i` makes a call, or
-- some process or interrupt wakes the sleepers on an object.
pub data Step (t : Table) : Table → Type 0 where
  picks : (i : ℕ) → i < nproc → (t.proc i).state ≡ runnable → Step t (schedule i t)
  yields : (i : ℕ) → i < nproc → (t.proc i).state ≡ running → Step t (yield i t)
  sleeps : (i a : ℕ) → i < nproc → (t.proc i).state ≡ running → Step t (sleep i (object a) t)
  tidies : (i : ℕ) → i < nproc → (t.proc i).state ≡ running → Step t (wake_tidy i t)
  wakes : (a : ℕ) → Step t (wakeup1 (some (object a)) t)
  forks :
      (i : ℕ) (stack copied : Bool)
      → i < nproc
      → (t.proc i).state ≡ running
      → Step t (fork i stack copied t).1
  exits :
      (i : ℕ) {t' : Table} → i < nproc → (t.proc i).state ≡ running → exit i t ≡ ok t' → Step t t'
  waits : (i : ℕ) → i < nproc → (t.proc i).state ≡ running → Step t (left_by (wait i t))
  kills : (pid : ℕ) {t' : Table} → kill pid t ≡ some t' → Step t t'

pub data Reach : Table → Type 0 where
  here : Reach userinit
  next : {s t : Table} → Reach s → Step s t → Reach t

running-live : (s : ProcState) → s ≡ running → is_live s ≡ true
running-live s e = rw e

runnable-live : (s : ProcState) → s ≡ runnable → is_live s ≡ true
runnable-live s e = rw e

exit-ok : (i : ℕ) (t t' : Table) → exit i t ≡ ok t' → i ≢ t.initproc
unfolding exit
exit-ok i t t' e same = absurd (ground (arith, e, same))

Step-IsConsistent : {s t : Table} → Step s t → IsConsistent s → IsConsistent t
Step-IsConsistent {s} (picks i lt e) v =
    schedule-IsConsistent v i (runnable-live (s.proc i).state e)
Step-IsConsistent {s} (yields i lt e) v = yield-IsConsistent v i (running-live (s.proc i).state e)
Step-IsConsistent {s} (sleeps i a lt e) v =
    sleep-IsConsistent v i (running-live (s.proc i).state e) a
Step-IsConsistent {s} (tidies i lt e) v =
    wake_tidy-IsConsistent v i (running-live (s.proc i).state e)
Step-IsConsistent (wakes a) v = wakeup1-IsConsistent (some (object a)) v
Step-IsConsistent {s} (forks i stack copied lt e) v =
    fork-IsConsistent i stack copied v lt (running-live (s.proc i).state e)
Step-IsConsistent {s} (exits i lt e runs) v =
    let (t', runs', v') =
      exit-IsConsistent v lt (exit-ok i s _ runs) (running-live (s.proc i).state e) in
    subst IsConsistent (let both : ok t' ≡ ok _ = sym runs' ∙ runs in cc) v'
Step-IsConsistent {s} (waits i lt e) v = wait-IsConsistent i v (running-live (s.proc i).state e)
Step-IsConsistent (kills pid e) v = kill-IsConsistent pid v e

userinit-IsConsistent : IsConsistent userinit
unfolding userinit
userinit-IsConsistent = record {
  init_small = omega arith;
  init_live = refl;
  init_parent = refl;
  parents = λ i lt here ne. absurd (ground (arith, here, ne));
  not_own = λ i. ground arith;
  no_lost = λ c p lt z kid. absurd (ground (arith, z));
}

-- In every table that the processes reach, init is live and has no parent, every other live process
-- and every zombie has a live parent, and no process sleeps in `wait` while one of its children is a
-- zombie.
pub Reach-IsConsistent : {t : Table} → Reach t → IsConsistent t
Reach-IsConsistent here = userinit-IsConsistent
Reach-IsConsistent (next r st) = Step-IsConsistent st (Reach-IsConsistent r)
