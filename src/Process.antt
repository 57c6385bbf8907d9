-- ===== src/Process.antt =====
-- The process table of proc.c. Each operation holds `ptable.lock` while it works on the table, so it
-- is one step. A process is named by its slot, and a null pointer is `none`. The table is a function
-- of the slot, of which the slots below `NPROC` are in use. What an operation does to memory, files
-- and the page table of a process is not part of the table.
pub mod Steps
pub mod Waiting
pub mod Leaving
pub mod Exit
pub mod Keep
pub mod Fork
pub mod Wait
use os182_ass.Prelude.{
  ◌==◌, if◌then◌else◌, ℕ, zero, suc, ◌+◌, Bool, true, false, not, ◌&&◌, ◌||◌, Option, none, some,
}
use os182_ass.Prelude.Outcome.{Outcome, ok, panic}

abbrev pub nproc : ℕ
nproc = 64

-- `enum procstate`
pub data ProcState : Type 0 where
  unused embryo sleeping runnable running zombie : ProcState

abbrev pub is_unused : ProcState → Bool
is_unused unused = true
is_unused _ = false

abbrev pub is_sleeping : ProcState → Bool
is_sleeping sleeping = true
is_sleeping _ = false

abbrev pub is_zombie : ProcState → Bool
is_zombie zombie = true
is_zombie _ = false

-- A channel is an address: that of a process or of another object.
pub data Chan : Type 0 where
  proc_at object : ℕ → Chan

abbrev pub same_chan : Option Chan → Option Chan → Bool
same_chan none none = true
same_chan (some (proc_at i)) (some (proc_at j)) = i == j
same_chan (some (object a)) (some (object b)) = a == b
same_chan _ _ = false

-- The fields of `struct proc` by which processes interact.
pub record TableEntry : Type 0 where
  pub state : ProcState
  pub pid : ℕ
  pub parent : Option ℕ
  pub chan : Option Chan
  pub killed : ℕ

-- `ptable.proc`, `nextpid` and `initproc`
pub record Table : Type 0 where
  pub proc : ℕ → TableEntry
  pub nextpid : ℕ
  pub initproc : ℕ

abbrev pub is_child : ℕ → TableEntry → Bool
is_child cur e = elim e.parent [ none ↦ false | some p ↦ p == cur ]

unfoldable pub put_entry : ℕ → TableEntry → Table → Table
put_entry i e t = record t { proc = λ j. if j == i then e else t.proc j }

-- The first loop of `allocproc`, from slot `i` with the rounds left.
unfoldable pub find_unused : ℕ → ℕ → Table → Option ℕ
find_unused zero i t = none
find_unused (suc rounds) i t =
    let rest = find_unused rounds (suc i) t in if is_unused (t.proc i).state then some i else rest

-- `stack` says whether `kalloc` found a page for the kernel stack.
unfoldable pub allocproc : Bool → Table → Option ℕ × Table
allocproc stack t = elim (find_unused nproc 0 t) [
  | none ↦ (none, t)
  | some i ↦
      let t' =
        put_entry i
          (record (t.proc i) { state = if stack then embryo else unused; pid = t.nextpid })
          (record t { nextpid = t.nextpid + 1 }) in
      (if stack then some i else none, t')
]

-- `copied` says whether `copyuvm` succeeded. The result is the pid of the child, or `none` for -1.
unfoldable pub fork : ℕ → Bool → Bool → Table → Option ℕ × Table
fork cur stack copied t =
    let (np, t') = allocproc stack t in
    elim np [
      | none ↦ (none, t')
      | some i ↦
          if copied
          then (
            some (t'.proc i).pid,
            put_entry i (record (t'.proc i) { parent = some cur; state = runnable }) t',
          )
          else (none, put_entry i (record (t'.proc i) { state = unused }) t')
    ]

abbrev pub wake : Option Chan → TableEntry → TableEntry
wake chan e =
    if is_sleeping e.state && same_chan e.chan chan then record e { state = runnable } else e

unfoldable pub wakeup1 : Option Chan → Table → Table
wakeup1 chan t = record t { proc = λ i. wake chan (t.proc i) }

-- `wakeup1` of a process pointer.
abbrev pub proc_chan : Option ℕ → Option Chan
proc_chan none = none
proc_chan (some i) = some (proc_at i)

-- `Pass abandoned children to init`, from slot `i` with the rounds left.
unfoldable pub reparent_loop : ℕ → ℕ → ℕ → Table → Table
reparent_loop zero i cur t = t
reparent_loop (suc rounds) i cur t =
    let given = put_entry i (record (t.proc i) { parent = some t.initproc }) t in
    let woken = wakeup1 (some (proc_at t.initproc)) given in
    reparent_loop rounds (suc i) cur
      (if is_child cur (t.proc i) then (if is_zombie (t.proc i).state then woken else given) else t)

-- `exit` as far as the table goes, up to the call of `sched`.
unfoldable pub exit : ℕ → Table → Outcome Table
exit cur t =
    if cur == t.initproc
    then panic
    else (let t' = reparent_loop nproc 0 cur (wakeup1 (proc_chan (t.proc cur).parent) t) in
        ok (put_entry cur (record (t'.proc cur) { state = zombie }) t'))

-- The loop of `wait` over the table: the zombie that it finds, and `havekids`.
unfoldable pub wait_scan : ℕ → ℕ → Bool → ℕ → Table → Option ℕ × Bool
wait_scan zero i havekids cur t = (none, havekids)
wait_scan (suc rounds) i havekids cur t =
    let next = wait_scan rounds (suc i) havekids cur t in
    let kid = wait_scan rounds (suc i) true cur t in
    if not (is_child cur (t.proc i))
    then next
    else if is_zombie (t.proc i).state
    then (some i, true)
    else kid

-- `wait` returns a pid, returns -1, or sleeps and scans again when it is woken.
pub data WaitStop : Type 0 where
  reaped : ℕ → Table → WaitStop
  wait_failed : Table → WaitStop
  wait_sleeps : Table → WaitStop

-- `sleep` of process `cur`, up to the call of `sched`.
unfoldable pub sleep : ℕ → Chan → Table → Table
sleep cur chan t = put_entry cur (record (t.proc cur) { chan = some chan; state = sleeping }) t

-- `sleep` when the process runs again.
unfoldable pub wake_tidy : ℕ → Table → Table
wake_tidy cur t = put_entry cur (record (t.proc cur) { chan = none }) t

unfoldable pub wait : ℕ → Table → WaitStop
wait cur t =
    let (found, havekids) = wait_scan nproc 0 false cur t in
    elim found [
      | some i ↦
          reaped (t.proc i).pid (
            put_entry i (record (t.proc i) { pid = 0; parent = none; killed = 0; state = unused })
              t)
      | none ↦
          if not havekids || not ((t.proc cur).killed == 0)
          then wait_failed t
          else wait_sleeps (sleep cur (proc_at cur) t)
    ]

-- The body of the scheduler's loop up to the switch to process `i`.
unfoldable pub schedule : ℕ → Table → Table
schedule i t = put_entry i (record (t.proc i) { state = running }) t

unfoldable pub yield : ℕ → Table → Table
yield cur t = put_entry cur (record (t.proc cur) { state = runnable }) t

-- The loop of `kill`, from slot `i` with the rounds left.
unfoldable pub kill_loop : ℕ → ℕ → ℕ → Table → Option Table
kill_loop zero i pid t = none
kill_loop (suc rounds) i pid t =
    let rest = kill_loop rounds (suc i) pid t in
    let e = record (t.proc i) { killed = 1 } in
    if (t.proc i).pid == pid
    then some (put_entry i (if is_sleeping e.state then record e { state = runnable } else e) t)
    else rest

-- `none` is -1.
unfoldable pub kill : ℕ → Table → Option Table
kill pid t = kill_loop nproc 0 pid t

-- The table after `userinit`: the first process is in slot 0.
abbrev pub no_process : TableEntry
no_process = record { state = unused; pid = 0; parent = none; chan = none; killed = 0 }

unfoldable pub userinit : Table
userinit = record {
  proc = λ i. if i == 0 then record no_process { state = runnable; pid = 1 } else no_process;
  nextpid = 2;
  initproc = 0;
}
