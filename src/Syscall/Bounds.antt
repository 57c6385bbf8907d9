-- ===== src/Syscall/Bounds.antt =====
-- The arguments of a system call that are let through lie in the memory of the process.
use os182_ass.Prelude.{
  ltb, leb, ◌==◌, Bool-cases, Option-cases, ℕ, zero, suc, ◌+◌, ◌-◌, ◌%◌, ◌^◌, ◌≤◌, ◌<◌, ◌≡◌, refl,
  sym, ap, ap₂, ◌∙◌, subst, ◌≢◌, ◌↔◌, inl, inr, false, ◌||◌, Option, none, some, arith, ℕ_discrete,
}
use os182_ass.Memory.{kernbase}
use os182_ass.Syscall.{User, int_at, fetchint, fetch_loop, fetchstr, argint, argptr, argstr}

-- For a process whose memory ends below the kernel's, `fetchint` gives the int at an address when
-- its four bytes are within the memory, and fails otherwise.
pub fetchint_lem :
    (p : User) (addr v : ℕ)
    → p.sz ≤ kernbase
    → (fetchint p addr ≡ some v) ↔ ((addr + 4 ≤ p.sz) × (int_at p.mem addr ≡ v))
unfolding fetchint
fetchint_lem p addr v small = elim (Bool-cases (leb p.sz addr || ltb p.sz ((addr + 4) % 2 ^ 32))) [
  | inl bad ↦ (
    λ e. absurd (let h : none ≡ some v = sym (rw (bad, fetchint) refl) ∙ e in cc),
    λ r. absurd (ground (arith, bad, r.0, small)),
  )
  | inr good ↦ (
    λ e. (
      ground (arith, good, small),
      let h : some (int_at p.mem addr) ≡ some v = sym (rw (good, fetchint) refl) ∙ e in cc,
    ),
    λ r. rw (good, fetchint) (ap some r.1),
  )
]

-- For a process whose memory ends below the kernel's, `argptr` gives the argument when it is the
-- address of a block of `size` bytes within the memory, begun inside it, and fails otherwise.
pub argptr_lem :
    (p : User) (n size i : ℕ)
    → p.sz ≤ kernbase
    → (argptr p n size ≡ some i)
      ↔ ((argint p n ≡ some i) × (size < 2 ^ 31) × (i < p.sz) × (i + size ≤ p.sz))
unfolding argptr
argptr_lem p n size i small = elim (Option-cases (argint p n)) [
  | inl no_arg ↦ (
    λ e. absurd (let h : none ≡ some i = sym (rw (no_arg, argptr) refl) ∙ e in cc),
    λ r. absurd (let h : none ≡ some i = sym no_arg ∙ r.0 in cc),
  )
  | inr (j, arg) ↦
      elim (Bool-cases (leb (2 ^ 31) size || leb p.sz j || ltb p.sz ((j + size) % 2 ^ 32))) [
        | inl bad ↦ (
          λ e. absurd (let h : none ≡ some i = sym (rw (arg, bad, argptr) refl) ∙ e in cc),
          λ r.
              let both : some j ≡ some i = sym arg ∙ r.0 in
              let same : j ≡ i = cc in absurd (ground (arith, bad, same, r.1, r.2, r.3, small)),
        )
        | inr good ↦ (
          λ e.
              let both : some j ≡ some i = sym (rw (arg, good, argptr) refl) ∙ e in
              let same : j ≡ i = cc in
              (
                arg ∙ both,
                ground (arith, good),
                ground (arith, good, same),
                ground (arith, good, same, small),
              ),
          λ r. rw (arg, good, argptr) (sym arg ∙ r.0),
        )
      ]
]

-- The bytes at `addr` are a string of length `len`.
pub record IsString (mem : ℕ → ℕ) (addr len : ℕ) : Type 0 where
  pub ends : mem (addr + len) ≡ 0
  pub inside : (j : ℕ) → j < len → mem (addr + j) ≢ 0

IsString-first :
    {mem : ℕ → ℕ} (s k : ℕ) → mem s ≢ 0 → IsString mem (suc s) k → IsString mem s (suc k)
IsString-first {mem} s k ne str = record {
  ends = ap mem (omega arith) ∙ str.ends;
  inside = λ j lt. elim (ℕ_discrete j 0) [
    | yes e ↦ λ z. ne (ap mem (omega (arith, e)) ∙ z)
    | no pos ↦ λ z. str.inside (j - 1) (omega (arith, lt, pos)) (ap mem (omega (arith, pos)) ∙ z)
  ];
}

IsString-rest : {mem : ℕ → ℕ} (s k : ℕ) → IsString mem s (suc k) → IsString mem (suc s) k
IsString-rest {mem} s k str = record {
  ends = ap mem (omega arith) ∙ str.ends;
  inside = λ j lt z. str.inside (suc j) (omega (arith, lt)) (ap mem (omega arith) ∙ z);
}

fetch_loop-some :
    (left s n : ℕ) (mem : ℕ → ℕ) {r : ℕ}
    → fetch_loop left s n mem ≡ some r
    → (k : ℕ) × (r ≡ n + k) × (k < left) × IsString mem s k
unfolding fetch_loop
fetch_loop-some zero s n mem e = absurd cc
fetch_loop-some (suc left) s n mem {r} e = elim (ℕ_discrete (mem s) 0) [
  | yes z ↦
      let same : n ≡ r = ground (arith, e, z) in
      (
        0,
        omega (arith, same),
        omega arith,
        record { ends = ap mem (omega arith) ∙ z; inside = λ j lt. absurd (omega (arith, lt)) },
      )
  | no ne ↦
      let (k, at, lt, str) =
        fetch_loop-some left (suc s) (suc n) mem {r = r} (ground (arith, e, ne)) in
      (suc k, omega (arith, at), omega (arith, lt), IsString-first s k ne str)
]

fetch_loop-string :
    (left s n k : ℕ) (mem : ℕ → ℕ)
    → k < left
    → IsString mem s k
    → fetch_loop left s n mem ≡ some (n + k)
unfolding fetch_loop
fetch_loop-string zero s n k mem lt str = absurd (omega (arith, lt))
fetch_loop-string (suc left) s n zero mem lt str =
    let z : mem s ≡ 0 = ap mem (omega arith) ∙ str.ends in
    let here : n ≡ n + 0 = omega arith in rw z (ap some here)
fetch_loop-string (suc left) s n (suc k) mem lt str =
    let ne : mem s ≢ 0 = λ z. str.inside 0 (omega arith) (ap mem (omega arith) ∙ z) in
    let ih =
      fetch_loop-string left (suc s) (suc n) k mem (omega (arith, lt)) (IsString-rest s k str) in
    let at : suc n + k ≡ n + suc k = omega arith in
    let later : (mem s == 0) ≡ false = ground (arith, ne) in rw later (ih ∙ ap some at)

fetchstr_lem :
    (p : User) (addr len : ℕ)
    → (fetchstr p addr ≡ some len) ↔ ((addr + len < p.sz) × IsString p.mem addr len)
unfolding fetchstr
fetchstr_lem p addr len = elim (Bool-cases (leb p.sz addr)) [
  | inl bad ↦ (
    λ e. absurd (let h : none ≡ some len = sym (rw (bad, fetchstr) refl) ∙ e in cc),
    λ r. absurd (ground (arith, bad, r.0)),
  )
  | inr good ↦ (
    λ e.
        let (k, at, lt, str) =
          fetch_loop-some (p.sz - addr) addr 0 p.mem {r = len}
            (sym (rw (good, fetchstr) refl) ∙ e) in
        let same : k ≡ len = omega (arith, at) in
        (ground (arith, good, lt, same), subst (IsString p.mem addr) same str),
    λ r.
        let zero_len : 0 + len ≡ len = omega arith in
        let found =
          fetch_loop-string (p.sz - addr) addr 0 len p.mem (ground (arith, good, r.0)) r.1 in
        rw (good, fetchstr) (found ∙ ap some zero_len),
  )
]

argstr-parts :
    (p : User) (n addr len : ℕ)
    → (argstr p n ≡ some (addr, len)) ↔ ((argint p n ≡ some addr) × (fetchstr p addr ≡ some len))
unfolding argstr
argstr-parts p n addr len = elim (Option-cases (argint p n)) [
  | inl no_arg ↦ (
    λ e. absurd (let h : none ≡ some (addr, len) = sym (rw (no_arg, argstr) refl) ∙ e in cc),
    λ r. absurd (let h : none ≡ some addr = sym no_arg ∙ r.0 in cc),
  )
  | inr (a, arg) ↦ elim (Option-cases (fetchstr p a)) [
    | inl no_string ↦ (
      λ e. absurd (
          let h : none ≡ some (addr, len) =
            sym (rw (arg, argstr) (rw (no_string, argstr) refl)) ∙ e in
          cc),
      λ r.
          let both : some a ≡ some addr = sym arg ∙ r.0 in
          let same : a ≡ addr = cc in
          absurd (let h : none ≡ some len = sym no_string ∙ ap (fetchstr p) same ∙ r.1 in cc),
    )
    | inr (l, found) ↦ (
      λ e.
          let both : ◌≡◌ {A = Option (ℕ × ℕ)} (some (a, l)) (some (addr, len)) =
            sym (rw (arg, argstr) (rw (found, argstr) refl)) ∙ e in
          let same : a ≡ addr = cc in
          let same_len : l ≡ len = cc in
          (arg ∙ ap some same, ap (fetchstr p) (sym same) ∙ found ∙ ap some same_len),
      λ r.
          let both : some a ≡ some addr = sym arg ∙ r.0 in
          let same : a ≡ addr = cc in
          let both_len : some l ≡ some len = sym found ∙ ap (fetchstr p) same ∙ r.1 in
          let same_len : l ≡ len = cc in
          rw (arg, argstr) (rw (found, argstr) (ap₂ (λ x y. some (x, y)) same same_len)),
    )
  ]
]

-- `argstr` gives an address and a length when the argument is the address of a string of that
-- length whose null byte is within the memory of the process, and fails otherwise.
pub argstr_lem :
    (p : User) (n addr len : ℕ)
    → (argstr p n ≡ some (addr, len))
      ↔ ((argint p n ≡ some addr) × (addr + len < p.sz) × IsString p.mem addr len)
argstr_lem p n addr len =
    let (to, from) = argstr-parts p n addr len in
    let (there, back) = fetchstr_lem p addr len in
    (
      λ e. let (arg, found) = to e in let (inside, str) = there found in (arg, inside, str),
      λ r. from (r.0, back (r.1, r.2)),
    )
