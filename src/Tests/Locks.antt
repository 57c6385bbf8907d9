-- ===== src/Tests/Locks.antt =====
-- Two processors at one lock.
use os182_ass.Prelude.{ℕ, ◌≡◌, refl, true, false, none, List, [], ◌∷◌}
use os182_ass.Prelude.Outcome.{ok}
use os182_ass.Lock.{outside, Cpus, run}
use os182_ass.Lock.Moves.{IsExclusive}
use os182_ass.Lock.Exclusive.{run-IsExclusive}

abbrev start : Cpus
start = record {
  lock = record { locked = false; cpu = none };
  cpu = λ c. record { interrupts = true; ncli = 0; intena = false };
  phase = λ c. outside;
}

start-IsExclusive : IsExclusive start
start-IsExclusive = record {
  taken = λ c h. h;
  one = λ c d h k. absurd cc;
  named = λ c e. absurd cc;
  masked = λ c. refl;
}

-- Processor 0 takes the lock, 1 spins; 0 gives it back, and 1 takes it.
abbrev order : List ℕ
order = 0 ∷ 1 ∷ 0 ∷ 1 ∷ 0 ∷ 1 ∷ 0 ∷ 0 ∷ 1 ∷ 1 ∷ []

run-IsExclusive_example : (s' : Cpus) × (run order start ≡ ok s') × IsExclusive s'
run-IsExclusive_example = run-IsExclusive order start start-IsExclusive
