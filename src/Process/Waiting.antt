-- ===== src/Process/Waiting.antt =====
-- What holds of the process table between two steps: each process has a live parent, and none waits
-- for children while one of them is a zombie.
use os182_ass.Prelude.{
  Bool-cases, ℕ, ◌<◌, ◌≡◌, refl, ◌≢◌, ◌⊎◌, inl, inr, Bool, true, false, ◌&&◌, ◌||◌, Option, none,
  some, arith,
}
use os182_ass.Process.{
  nproc, ProcState, unused, embryo, sleeping, runnable, running, zombie, is_sleeping, is_zombie,
  Chan, proc_at, same_chan, TableEntry, Table, is_child, wake,
}

-- The process may still run.
abbrev pub is_live : ProcState → Bool
is_live sleeping = true
is_live runnable = true
is_live running = true
is_live _ = false

abbrev pub is_present : ProcState → Bool
is_present s = is_live s || is_zombie s

-- The process in slot `p` sleeps in `wait`.
abbrev pub in_wait : ℕ → TableEntry → Bool
in_wait p e = is_sleeping e.state && same_chan e.chan (some (proc_at p))

-- The process has a live parent.
pub record HasParent (t : Table) (i : ℕ) : Type 0 where
  pub parent : ℕ
  pub here : (t.proc i).parent ≡ some parent
  pub small : parent < nproc
  pub live : is_live (t.proc parent).state ≡ true

pub record IsConsistent (t : Table) : Type 0 where
  pub init_small : t.initproc < nproc
  pub init_live : is_live (t.proc t.initproc).state ≡ true
  pub init_parent : (t.proc t.initproc).parent ≡ none
  pub parents :
      (i : ℕ) → i < nproc → is_present (t.proc i).state ≡ true → i ≢ t.initproc → HasParent t i
  pub not_own : (i : ℕ) → is_child i (t.proc i) ≡ false
  pub no_lost :
      (c p : ℕ)
      → c < nproc
      → is_zombie (t.proc c).state ≡ true
      → is_child p (t.proc c) ≡ true
      → in_wait p (t.proc p) ≡ false

-- A wakeup changes at most the state of a sleeping process.
pub wake-cases :
    (chan : Option Chan) (e : TableEntry)
    → (wake chan e ≡ e)
      ⊎ ((is_sleeping e.state ≡ true) × (wake chan e ≡ record e { state = runnable }))
wake-cases chan e = elim (Bool-cases (is_sleeping e.state && same_chan e.chan chan)) [
  | inl h ↦ inr (ground (arith, h), ground (arith, h))
  | inr h ↦ inl (ground (arith, h))
]

sleeping_eq : (s : ProcState) → is_sleeping s ≡ true → s ≡ sleeping
sleeping_eq sleeping h = refl
sleeping_eq unused h = cc
sleeping_eq embryo h = cc
sleeping_eq runnable h = cc
sleeping_eq running h = cc
sleeping_eq zombie h = cc

module _ (chan : Option Chan) (e : TableEntry) where
  pub wake-parent : (wake chan e).parent ≡ e.parent
  wake-parent = elim (wake-cases chan e) [ inl h ↦ rw h | inr (s, h) ↦ rw h ]

  pub wake-is_live : is_live (wake chan e).state ≡ is_live e.state
  wake-is_live = elim (wake-cases chan e) [
    | inl h ↦ rw h
    | inr (s, h) ↦ rw (h, sleeping_eq e.state s)
  ]

  pub wake-is_zombie : is_zombie (wake chan e).state ≡ is_zombie e.state
  wake-is_zombie = elim (wake-cases chan e) [
    | inl h ↦ rw h
    | inr (s, h) ↦ rw (h, sleeping_eq e.state s)
  ]

  pub wake-in_wait : (p : ℕ) → in_wait p e ≡ false → in_wait p (wake chan e) ≡ false
  wake-in_wait p awake = elim (wake-cases chan e) [ inl h ↦ rw h awake | inr (s, h) ↦ rw h ]

pub wake-in_wait_self : (p : ℕ) (e : TableEntry) → in_wait p (wake (some (proc_at p)) e) ≡ false
wake-in_wait_self p e =
    elim (Bool-cases (is_sleeping e.state && same_chan e.chan (some (proc_at p)))) [
      | inl h ↦ rw h
      | inr h ↦ rw h h
    ]
