-- ===== src/Lock/Exclusive.antt =====
-- The steps of processors at a spin lock, and mutual exclusion.
use os182_ass.Prelude.{
  ◌==◌, Bool-cases, ℕ, ◌-◌, ◌≡◌, refl, sym, ap, ◌∙◌, subst, ◌≢◌, inl, inr, true, false, ◌&&◌,
  Option, none, some, List, [], ◌∷◌, arith,
}
use os182_ass.Prelude.Outcome.{ok}
use os182_ass.Lock.{
  Cpu, Spinlock, pushcli, popcli, same_cpu, holding, Phase, outside, spinning, won, inside, leaving,
  Cpus, put, step_from, run,
}
use os182_ass.Lock.Moves.{
  has, Masked, Named, IsExclusive, true_ne, put_self, put_ne, Moves-IsExclusive,
}

some-inj : {a b : ℕ} → ◌≡◌ {A = Option ℕ} (some a) (some b) → a ≡ b
some-inj {a} e = ap (λ o. elim o [ none ↦ a | some x ↦ x ]) e

-- The lock names no processor that has not won it.
Named-some : (p : Phase) (c d : ℕ) → has p ≡ false → d ≢ c → Named p d (some c)
Named-some outside c d out ne = λ e. ne (sym (some-inj e))
Named-some spinning c d out ne = λ e. ne (sym (some-inj e))
Named-some won c d out ne = absurd cc
Named-some inside c d out ne = absurd cc
Named-some leaving c d out ne = absurd cc

none-ne : (d : ℕ) → ◌≢◌ {A = Option ℕ} none (some d)
none-ne d e = absurd cc

Named-none : (p : Phase) (d : ℕ) → has p ≡ false → Named p d none
Named-none outside d out = λ e. cc
Named-none spinning d out = λ e. cc
Named-none won d out = λ e. cc
Named-none inside d out = absurd cc
Named-none leaving d out = λ e. cc

same_other : (c : ℕ) (o : Option ℕ) → o ≢ some c → same_cpu c o ≡ false
same_other c none ne = refl
same_other c (some d) ne = let apart : d ≢ c = λ e. ne (ap some e) in ground (arith, apart)

not_held : (c : ℕ) (lk : Spinlock) → lk.cpu ≢ some c → holding c lk ≡ false
unfolding holding
not_held c lk ne = elim (Bool-cases lk.locked) [
  | inl h ↦ rw (h, same_other c lk.cpu ne, holding) refl
  | inr h ↦ rw (h, holding) refl
]

held : (c : ℕ) (lk : Spinlock) → lk.locked ≡ true → lk.cpu ≡ some c → holding c lk ≡ true
unfolding holding
held c lk locked mine = rw (locked, mine, holding) (ground arith)

popcli-Masked :
    (k : Cpu) → k.ncli ≡ 1 → k.interrupts ≡ false → (k' : Cpu) × (popcli k ≡ ok k') × (k'.ncli ≡ 0)
unfolding popcli
popcli-Masked k one off = (
  record k { ncli = k.ncli - 1; interrupts = (k.ncli - 1 == 0) && k.intena },
  ground (arith, one, off),
  omega (arith, one),
)

-- A processor alone with the lock.
others_out :
    (s : Cpus) (c : ℕ)
    → IsExclusive s
    → has (s.phase c) ≡ true
    → (d : ℕ) → d ≢ c
    → has (s.phase d) ≡ false
others_out s c x mine d ne = elim (Bool-cases (has (s.phase d))) [
  | inl h ↦ absurd (ne (x.one d c h mine))
  | inr h ↦ h
]

free_out : (s : Cpus) → IsExclusive s → s.lock.locked ≡ false → (d : ℕ) → has (s.phase d) ≢ true
free_out s x free d h = absurd (true_ne (sym (x.taken d h) ∙ free))

-- A step at the loop of `acquire`, to the phase `p`.
spin :
    (s : Cpus) (c : ℕ) (p : Phase)
    → IsExclusive s
    → Named p c s.lock.cpu
    → Masked p (s.cpu c)
    → (has p ≡ true → (d : ℕ) → d ≢ c → has (s.phase d) ≢ true)
    → step_from spinning c s
      ≡ ok (record s { lock = record s.lock { locked = true }; phase = put s.phase c p })
    → (s' : Cpus) × (step_from spinning c s ≡ ok s') × IsExclusive s'
spin s c p x named masked alone steps =
    let s' : Cpus = record s { lock = record s.lock { locked = true }; phase = put s.phase c p } in
    (
      s',
      steps,
      Moves-IsExclusive s s' c p x (record {
        phase_here = put_self s.phase c p;
        phase_there = λ d. put_ne s.phase c d p;
        cpu_there = λ d ne. refl;
        masked_here = masked;
        named_here = named;
        named_there = λ d ne. x.named d;
        taken_here = λ _. refl;
        taken_there = λ d ne h. refl;
        alone = alone;
      }),
    )

step_from-IsExclusive :
    (p : Phase) (s : Cpus) (c : ℕ)
    → s.phase c ≡ p
    → IsExclusive s
    → (s' : Cpus) × (step_from p c s ≡ ok s') × IsExclusive s'
unfolding step_from pushcli
step_from-IsExclusive outside s c at x =
    let unnamed = subst (λ q. Named q c s.lock.cpu) at (x.named c) in
    let zero_deep = subst (λ q. Masked q (s.cpu c)) at (x.masked c) in
    let s' : Cpus = record s {
      cpu = put s.cpu c (pushcli (s.cpu c));
      phase = put s.phase c spinning;
    } in
    (
      s',
      rw (not_held c s.lock unnamed, step_from) refl,
      Moves-IsExclusive s s' c spinning x (record {
        phase_here = put_self s.phase c spinning;
        phase_there = λ d. put_ne s.phase c d spinning;
        cpu_there = λ d. put_ne s.cpu c d (pushcli (s.cpu c));
        masked_here = rw (put_self s.cpu c (pushcli (s.cpu c))) (omega (arith, zero_deep), refl);
        named_here = unnamed;
        named_there = λ d ne. x.named d;
        taken_here = λ h. absurd (true_ne (sym h));
        taken_there = λ d ne. x.taken d;
        alone = λ h. absurd (true_ne (sym h));
      }),
    )
step_from-IsExclusive spinning s c at x = elim (Bool-cases s.lock.locked) [
  | inl busy ↦
      spin s c spinning x (subst (λ q. Named q c s.lock.cpu) at (x.named c))
        (subst (λ q. Masked q (s.cpu c)) at (x.masked c)) (λ h. absurd (true_ne (sym h)))
        (rw (busy, step_from) refl)
  | inr free ↦
      spin s c won x (subst (λ q. Named q c s.lock.cpu) at (x.named c))
        (subst (λ q. Masked q (s.cpu c)) at (x.masked c)) (λ _ d ne. free_out s x free d)
        (rw (free, step_from) refl)
]
step_from-IsExclusive won s c at x =
    let mine : has (s.phase c) ≡ true = ap has at in
    let out = others_out s c x mine in
    let s' : Cpus = record s {
      lock = record s.lock { cpu = some c };
      phase = put s.phase c inside;
    } in
    (
      s',
      refl,
      Moves-IsExclusive s s' c inside x (record {
        phase_here = put_self s.phase c inside;
        phase_there = λ d. put_ne s.phase c d inside;
        cpu_there = λ d ne. refl;
        masked_here = subst (λ q. Masked q (s.cpu c)) at (x.masked c);
        named_here = refl;
        named_there = λ d ne. Named-some (s.phase d) c d (out d ne) ne;
        taken_here = λ _. x.taken c mine;
        taken_there = λ d ne. x.taken d;
        alone = λ _ d ne h. true_ne (sym h ∙ out d ne);
      }),
    )
step_from-IsExclusive inside s c at x =
    let mine : has (s.phase c) ≡ true = ap has at in
    let out = others_out s c x mine in
    let named = subst (λ q. Named q c s.lock.cpu) at (x.named c) in
    let s' : Cpus = record s {
      lock = record s.lock { cpu = none };
      phase = put s.phase c leaving;
    } in
    (
      s',
      rw (held c s.lock (x.taken c mine) named, step_from) refl,
      Moves-IsExclusive s s' c leaving x (record {
        phase_here = put_self s.phase c leaving;
        phase_there = λ d. put_ne s.phase c d leaving;
        cpu_there = λ d ne. refl;
        masked_here = subst (λ q. Masked q (s.cpu c)) at (x.masked c);
        named_here = none-ne c;
        named_there = λ d ne. Named-none (s.phase d) d (out d ne);
        taken_here = λ _. x.taken c mine;
        taken_there = λ d ne. x.taken d;
        alone = λ _ d ne h. true_ne (sym h ∙ out d ne);
      }),
    )
step_from-IsExclusive leaving s c at x =
    let mine : has (s.phase c) ≡ true = ap has at in
    let out = others_out s c x mine in
    let masked = subst (λ q. Masked q (s.cpu c)) at (x.masked c) in
    let (k, pops, level) = popcli-Masked (s.cpu c) masked.0 masked.1 in
    let s' : Cpus = record s {
      lock = record s.lock { locked = false };
      cpu = put s.cpu c k;
      phase = put s.phase c outside;
    } in
    (
      s',
      rw (pops, step_from) refl,
      Moves-IsExclusive s s' c outside x (record {
        phase_here = put_self s.phase c outside;
        phase_there = λ d. put_ne s.phase c d outside;
        cpu_there = λ d. put_ne s.cpu c d k;
        masked_here = rw (put_self s.cpu c k) level;
        named_here = subst (λ q. Named q c s.lock.cpu) at (x.named c);
        named_there = λ d ne. x.named d;
        taken_here = λ h. absurd (true_ne (sym h));
        taken_there = λ d ne h. absurd (true_ne (sym h ∙ out d ne));
        alone = λ h. absurd (true_ne (sym h));
      }),
    )

-- When one processor at most is between `acquire` and `release` of the lock, and the lock and the
-- interrupts are as the phases of the processors say, then the steps of any number of processors in
-- any order lead to such a state again, without a panic in `acquire`, `release` or `popcli`.
pub run-IsExclusive :
    (cs : List ℕ) (s : Cpus) → IsExclusive s → (s' : Cpus) × (run cs s ≡ ok s') × IsExclusive s'
unfolding run
run-IsExclusive [] s x = (s, refl, x)
run-IsExclusive (c ∷ cs) s x =
    let (s1, steps, x1) = step_from-IsExclusive (s.phase c) s c refl x in
    let (s2, runs, x2) = run-IsExclusive cs s1 x1 in (s2, rw (steps, run) runs, x2)
