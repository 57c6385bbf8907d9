-- ===== src/Lock.antt =====
-- spinlock.c: one lock, and the processors that take it and give it back. A processor's step runs up to
-- its next access to the lock that others see; the names and call stacks for debugging are left out.
pub mod Moves
pub mod Exclusive
use os182_ass.Prelude.{
  ◌==◌, if◌then◌else◌, ℕ, ◌+◌, ◌-◌, Bool, true, false, not, ◌&&◌, Option, none, some, List, [], ◌∷◌,
}
use os182_ass.Prelude.Outcome.{Outcome, ok, panic, ◌>>=◌, ◌>>◌, panic_if}

-- The fields of `struct cpu` for the interrupts, and the interrupt flag.
pub record Cpu : Type 0 where
  pub interrupts : Bool
  pub ncli : ℕ
  pub intena : Bool

-- `struct spinlock`; the null pointer is `none`.
pub record Spinlock : Type 0 where
  pub locked : Bool
  pub cpu : Option ℕ

unfoldable pub pushcli : Cpu → Cpu
pushcli k = record {
  interrupts = false;
  ncli = k.ncli + 1;
  intena = if k.ncli == 0 then k.interrupts else k.intena;
}

unfoldable pub popcli : Cpu → Outcome Cpu
popcli k = do
  panic_if k.interrupts
  panic_if (k.ncli == 0)
  ok (record k { ncli = k.ncli - 1; interrupts = (k.ncli - 1 == 0) && k.intena })

abbrev same_cpu : ℕ → Option ℕ → Bool
same_cpu c none = false
same_cpu c (some d) = d == c

unfoldable pub holding : ℕ → Spinlock → Bool
holding c lk = lk.locked && same_cpu c lk.cpu

-- Where a processor is in `acquire` or `release`: before `acquire`, at the loop, behind it, between
-- the two calls, and at the store that frees the lock.
pub data Phase : Type 0 where
  outside spinning won inside leaving : Phase

pub record Cpus : Type 0 where
  pub lock : Spinlock
  pub cpu : ℕ → Cpu
  pub phase : ℕ → Phase

abbrev pub put {ℓ} : {A : Type ℓ} → (ℕ → A) → ℕ → A → ℕ → A
put f c x d = if d == c then x else f d

-- A step of processor `c`.
unfoldable pub step_from : Phase → ℕ → Cpus → Outcome Cpus
step_from outside c s = do
  panic_if (holding c s.lock)
  ok (record s { cpu = put s.cpu c (pushcli (s.cpu c)); phase = put s.phase c spinning })
step_from spinning c s = ok (record s {
  lock = record s.lock { locked = true };
  phase = put s.phase c (if s.lock.locked then spinning else won);
})
step_from won c s =
    ok (record s { lock = record s.lock { cpu = some c }; phase = put s.phase c inside })
step_from inside c s = do
  panic_if (not (holding c s.lock))
  ok (record s { lock = record s.lock { cpu = none }; phase = put s.phase c leaving })
step_from leaving c s = do
  k ← popcli (s.cpu c)
  ok (record s {
    lock = record s.lock { locked = false };
    cpu = put s.cpu c k;
    phase = put s.phase c outside;
  })

abbrev pub step : ℕ → Cpus → Outcome Cpus
step c s = step_from (s.phase c) c s

-- The steps of the processors in the order of the list.
unfoldable pub run : List ℕ → Cpus → Outcome Cpus
run [] s = ok s
run (c ∷ cs) s = step c s >>= λ s'. run cs s'
