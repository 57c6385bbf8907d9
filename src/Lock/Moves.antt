-- ===== src/Lock/Moves.antt =====
-- States of a spin lock and its processors, and what a move of one of them has to keep.
use os182_ass.Prelude.{
  ◌==◌, ℕ, ◌≡◌, refl, sym, ap, ◌∙◌, subst, ◌≢◌, Bool, true, false, Option, some, arith, ℕ_discrete,
}
use os182_ass.Lock.{Cpu, Phase, outside, spinning, won, inside, leaving, Cpus, put}

-- The processor has won the lock, and not freed it.
abbrev pub has : Phase → Bool
has outside = false
has spinning = false
has won = true
has inside = true
has leaving = true

-- The interrupts of a processor that does not hold other locks.
abbrev pub Masked : Phase → Cpu → Type 0
Masked outside k = k.ncli ≡ 0
Masked _ k = (k.ncli ≡ 1) × (k.interrupts ≡ false)

-- What the lock says of the processor, by its phase.
abbrev pub Named : Phase → ℕ → Option ℕ → Type 0
Named inside c o = o ≡ some c
Named _ c o = o ≢ some c

pub record IsExclusive (s : Cpus) : Type 0 where
  pub taken : (c : ℕ) → has (s.phase c) ≡ true → s.lock.locked ≡ true
  pub one : (c d : ℕ) → has (s.phase c) ≡ true → has (s.phase d) ≡ true → c ≡ d
  pub named : (c : ℕ) → Named (s.phase c) c s.lock.cpu
  pub masked : (c : ℕ) → Masked (s.phase c) (s.cpu c)

pub true_ne : true ≢ false
true_ne e = absurd cc

pub put_self : {A : Type 0} (f : ℕ → A) (c : ℕ) (x : A) → put f c x c ≡ x
put_self f c x = let at : (c == c) ≡ true = ground arith in rw (at) refl

pub put_ne : {A : Type 0} (f : ℕ → A) (c d : ℕ) (x : A) → d ≢ c → put f c x d ≡ f d
put_ne f c d x ne = let at : (d == c) ≡ false = ground (arith, ne) in rw (at) refl

by_cpu : (P : ℕ → Type 0) (c : ℕ) → P c → ((d : ℕ) → d ≢ c → P d) → (d : ℕ) → P d
by_cpu P c here others d = elim (ℕ_discrete d c) [
  | yes e ↦ subst P (sym e) here
  | no ne ↦ others d ne
]

-- What a move of processor `c` to the phase `p` has to keep.
pub record Moves (s s' : Cpus) (c : ℕ) (p : Phase) : Type 0 where
  pub phase_here : s'.phase c ≡ p
  pub phase_there : (d : ℕ) → d ≢ c → s'.phase d ≡ s.phase d
  pub cpu_there : (d : ℕ) → d ≢ c → s'.cpu d ≡ s.cpu d
  pub masked_here : Masked p (s'.cpu c)
  pub named_here : Named p c s'.lock.cpu
  pub named_there : (d : ℕ) → d ≢ c → Named (s.phase d) d s'.lock.cpu
  pub taken_here : has p ≡ true → s'.lock.locked ≡ true
  pub taken_there : (d : ℕ) → d ≢ c → has (s.phase d) ≡ true → s'.lock.locked ≡ true
  pub alone : has p ≡ true → (d : ℕ) → d ≢ c → has (s.phase d) ≢ true

pub Moves-IsExclusive :
    (s s' : Cpus) (c : ℕ) (p : Phase) → IsExclusive s → Moves s s' c p → IsExclusive s'
Moves-IsExclusive s s' c p x m =
    let has_here : has (s'.phase c) ≡ has p = ap has m.phase_here in
    let has_there : (d : ℕ) → d ≢ c → has (s'.phase d) ≡ has (s.phase d) =
      λ d ne. ap has (m.phase_there d ne) in
    record {
      taken =
          by_cpu (λ d. has (s'.phase d) ≡ true → s'.lock.locked ≡ true) c
            (λ h. m.taken_here (sym has_here ∙ h))
            (λ d ne h. m.taken_there d ne (sym (has_there d ne) ∙ h));
      one =
          by_cpu (λ a. (b : ℕ) → has (s'.phase a) ≡ true → has (s'.phase b) ≡ true → a ≡ b) c
            (by_cpu (λ b. has (s'.phase c) ≡ true → has (s'.phase b) ≡ true → c ≡ b) c (λ _ _. refl)
              (λ b ne h k. absurd (m.alone (sym has_here ∙ h) b ne (sym (has_there b ne) ∙ k))))
            (λ a na.
              by_cpu (λ b. has (s'.phase a) ≡ true → has (s'.phase b) ≡ true → a ≡ b) c
                (λ h k. absurd (m.alone (sym has_here ∙ k) a na (sym (has_there a na) ∙ h)))
                (λ b nb h k. x.one a b (sym (has_there a na) ∙ h) (sym (has_there b nb) ∙ k)));
      named =
          by_cpu (λ d. Named (s'.phase d) d s'.lock.cpu) c
            (subst (λ q. Named q c s'.lock.cpu) (sym m.phase_here) m.named_here)
            (λ d ne.
              subst (λ q. Named q d s'.lock.cpu) (sym (m.phase_there d ne)) (m.named_there d ne));
      masked =
          by_cpu (λ d. Masked (s'.phase d) (s'.cpu d)) c
            (subst (λ q. Masked q (s'.cpu c)) (sym m.phase_here) m.masked_here)
            (λ d ne.
              subst (λ k. Masked (s'.phase d) k) (sym (m.cpu_there d ne))
                (subst (λ q. Masked q (s.cpu d)) (sym (m.phase_there d ne)) (x.masked d)));
    }
