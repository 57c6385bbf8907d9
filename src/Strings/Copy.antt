-- ===== src/Strings/Copy.antt =====
-- `safestrcpy` always ends its copy with a null byte, and stays within its bounds.
use os182_ass.Prelude.{
  ◌==◌, Bool-cases, ℕ, zero, suc, ◌+◌, ◌≤◌, ◌<◌, ◌≡◌, refl, sym, ap, ◌∙◌, ◌≢◌, ◌⊎◌, inl, inr, arith,
}
use os182_ass.Strings.{Bytes, put, safe_loop, safestrcpy}

-- `out` is `m` with the string at `t`, cut to `n` bytes with its null byte, copied to `s`.
pub record IsCopy (s t n : ℕ) (m out : Bytes) : Type 0 where
  pub len : ℕ
  pub fits : len < n
  pub ended : out (s + len) ≡ 0
  pub same : (i : ℕ) → i < len → out (s + i) ≡ m (t + i)
  pub live : (i : ℕ) → i < len → m (t + i) ≢ 0
  pub whole : (m (t + len) ≡ 0) ⊎ (len + 1 ≡ n)
  pub outside : (a : ℕ) → (a < s) ⊎ (s + n ≤ a) → out a ≡ m a

-- The regions do not overlap.
abbrev pub Disjoint : ℕ → ℕ → ℕ → Type 0
Disjoint s t n = (t + n ≤ s) ⊎ (s + n ≤ t)

put_same : (m : Bytes) (x v : ℕ) → put m x v x ≡ v
unfolding put
put_same m x v = ground arith

put_other : (m : Bytes) (x v a : ℕ) → a ≢ x → put m x v a ≡ m a
unfolding put
put_other m x v a ne = ground arith

-- The null byte is copied, and another one goes behind it.
IsCopy-empty :
    (s t n : ℕ) (m : Bytes) → 1 < n → m t ≡ 0 → IsCopy s t n m (put (put m s (m t)) (s + 1) 0)
unfolding put
IsCopy-empty s t n m lt e = record {
  len = 0;
  fits = omega arith;
  ended = ground (arith, e);
  same = λ i h. absurd (omega arith);
  live = λ i h. absurd (omega arith);
  whole = inl (ap m (omega arith) ∙ e);
  outside = λ a h. ground arith;
}

-- One byte that is not null goes before a copy of the rest.
IsCopy-suc :
    (s t n : ℕ) (m : Bytes) {out : Bytes}
    → Disjoint s t (suc n)
    → m t ≢ 0
    → IsCopy (s + 1) (t + 1) n (put m s (m t)) out
    → IsCopy s t (suc n) m out
IsCopy-suc s t n m {out} apart ne c = record {
  len = suc c.len;
  fits = omega (arith, c.fits);
  ended = ap out (shift s c.len) ∙ c.ended;
  same = same;
  live = live;
  whole = whole c.whole;
  outside = λ a h. c.outside a (ground arith) ∙ put_other m s (m t) a (λ e. ground arith);
}
  where
    shift : (x i : ℕ) → x + suc i ≡ x + 1 + i
    shift x i = omega arith

    source : (i : ℕ) → i < n → put m s (m t) (t + 1 + i) ≡ m (t + suc i)
    source i lt = put_other m s (m t) (t + 1 + i) (λ e. ground arith) ∙ ap m (sym (shift t i))

    same : (i : ℕ) → i < suc c.len → out (s + i) ≡ m (t + i)
    same zero lt =
        ap out (omega arith)
        ∙ c.outside s (inl (omega arith))
        ∙ put_same m s (m t)
        ∙ ap m (omega arith)
    same (suc i) lt = ap out (shift s i) ∙ c.same i (omega arith) ∙ source i (omega (arith, c.fits))

    live : (i : ℕ) → i < suc c.len → m (t + i) ≢ 0
    live zero lt e = ne (ap m (omega arith) ∙ e)
    live (suc i) lt e = c.live i (omega arith) (source i (omega (arith, c.fits)) ∙ e)

    whole :
        (put m s (m t) (t + 1 + c.len) ≡ 0) ⊎ (c.len + 1 ≡ n)
        → (m (t + suc c.len) ≡ 0) ⊎ (suc c.len + 1 ≡ suc n)
    whole (inl e) = inl (sym (source c.len c.fits) ∙ e)
    whole (inr e) = inr (omega arith)

safe_loop-IsCopy :
    (n s t : ℕ) (m : Bytes) → Disjoint s t (suc n) → IsCopy s t (suc n) m (safe_loop n s t m)
unfolding safe_loop
safe_loop-IsCopy zero s t m apart = record {
  len = 0;
  fits = omega arith;
  ended = ap (put m s 0) (omega arith) ∙ put_same m s 0;
  same = λ i h. absurd (omega arith);
  live = λ i h. absurd (omega arith);
  whole = inr refl;
  outside = λ a h. put_other m s 0 a (λ e. ground arith);
}
safe_loop-IsCopy (suc n) s t m apart = elim (Bool-cases (m t == 0)) [
  | inl e ↦ rw e (IsCopy-empty s t (suc (suc n)) m (omega arith) (ground (arith, e)))
  | inr e ↦ rw e (
      IsCopy-suc s t (suc n) m apart (ground (arith, e))
        (safe_loop-IsCopy n (s + 1) (t + 1) (put m s (m t)) (ground arith)))
]

-- With room for at least one byte and without overlap, `safestrcpy` copies the bytes up to the null
-- byte, as many as fit before a null byte of its own, ends the copy with a null byte, and writes
-- nothing outside the `n` bytes from `s` on.
pub safestrcpy-IsCopy :
    (s t n : ℕ) (m : Bytes) → 0 < n → Disjoint s t n → IsCopy s t n m (safestrcpy s t n m)
unfolding safestrcpy
safestrcpy-IsCopy s t zero m pos apart = absurd (omega arith)
safestrcpy-IsCopy s t (suc n) m pos apart = safe_loop-IsCopy n s t m apart
