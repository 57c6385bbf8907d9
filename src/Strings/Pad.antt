-- ===== src/Strings/Pad.antt =====
-- `strncpy` fills exactly its `n` bytes: with the string, and null bytes behind it.
use os182_ass.Prelude.{
  ◌==◌, if◌then◌else◌, Bool-cases, ℕ, zero, suc, ◌+◌, ◌≤◌, ◌<◌, ◌≡◌, refl, ap, ◌∙◌, ◌⊎◌, inl, inr,
  arith,
}
use os182_ass.Strings.{Bytes, put, pad_loop, strncpy}
use os182_ass.Strings.Copy.{Disjoint}

-- Byte `i` of the string at `t`, and 0 behind its null byte.
unfoldable pub padded : ℕ → ℕ → Bytes → ℕ
padded zero t m = m t
padded (suc i) t m = let rest = padded i (t + 1) m in if m t == 0 then 0 else rest

padded-put :
    (i t : ℕ) (m : Bytes) (x v : ℕ) → (x < t) ⊎ (t + i < x) → padded i t (put m x v) ≡ padded i t m
unfolding padded put
padded-put zero t m x v far = ground arith
padded-put (suc i) t m x v far = ground (arith, padded-put i (t + 1) m x v (ground arith))

pad_loop-outside : (n s a : ℕ) (m : Bytes) → (a < s) ⊎ (s + n ≤ a) → pad_loop n s m a ≡ m a
unfolding pad_loop put
pad_loop-outside zero s a m far = refl
pad_loop-outside (suc n) s a m far =
    pad_loop-outside n (s + 1) a (put m s 0) (ground arith) ∙ ground arith

pad_loop-inside : (n s i : ℕ) (m : Bytes) → i < n → pad_loop n s m (s + i) ≡ 0
unfolding pad_loop put
pad_loop-inside zero s i m lt = absurd (omega arith)
pad_loop-inside (suc n) s zero m lt =
    pad_loop-outside n (s + 1) (s + 0) (put m s 0) (inl (omega arith)) ∙ ground arith
pad_loop-inside (suc n) s (suc i) m lt =
    ap (pad_loop n (s + 1) (put m s 0)) (omega arith)
    ∙ pad_loop-inside n (s + 1) i (put m s 0) (omega arith)

-- Bytes outside the `n` from `s` on stay as they are.
strncpy-outside : (n s t a : ℕ) (m : Bytes) → (a < s) ⊎ (s + n ≤ a) → strncpy s t n m a ≡ m a
unfolding strncpy put
strncpy-outside zero s t a m far = refl
strncpy-outside (suc n) s t a m far = ground (
  arith,
  strncpy-outside n (s + 1) (t + 1) a (put m s (m t)) (ground arith),
  pad_loop-outside n (s + 1) a (put m s (m t)) (ground arith),
)

put_here : (m : Bytes) (s v : ℕ) → put m s v (s + 0) ≡ v
unfolding put
put_here m s v = ground arith

strncpy-inside :
    (n s t i : ℕ) (m : Bytes) → Disjoint s t n → i < n → strncpy s t n m (s + i) ≡ padded i t m
unfolding strncpy padded
strncpy-inside zero s t i m apart lt = absurd (omega arith)
strncpy-inside (suc n) s t zero m apart lt = elim (Bool-cases (m t == 0)) [
  | inl e ↦
      rw e (
        pad_loop-outside n (s + 1) (s + 0) (put m s (m t)) (inl (omega arith)) ∙ put_here m s (m t))
  | inr e ↦ rw e (
      strncpy-outside n (s + 1) (t + 1) (s + 0) (put m s (m t)) (inl (omega arith))
      ∙ put_here m s (m t))
]
strncpy-inside (suc n) s t (suc i) m apart lt = elim (Bool-cases (m t == 0)) [
  | inl e ↦ rw e (
      ap (pad_loop n (s + 1) (put m s (m t))) (omega arith)
      ∙ pad_loop-inside n (s + 1) i (put m s (m t)) (omega arith))
  | inr e ↦ rw e (
      ap (strncpy (s + 1) (t + 1) n (put m s (m t))) (omega arith)
      ∙ strncpy-inside n (s + 1) (t + 1) i (put m s (m t)) (ground arith) (omega arith)
      ∙ padded-put i (t + 1) m s (m t) (ground arith))
]

-- Without overlap, `strncpy` writes each of the `n` bytes from `s` on, the string up to its null
-- byte and null bytes behind it, and no other byte.
pub strncpy-padded :
    (n s t : ℕ) (m : Bytes)
    → Disjoint s t n
    → ((i : ℕ) → i < n → strncpy s t n m (s + i) ≡ padded i t m)
      × ((a : ℕ) → (a < s) ⊎ (s + n ≤ a) → strncpy s t n m a ≡ m a)
strncpy-padded n s t m apart =
    (λ i lt. strncpy-inside n s t i m apart lt, λ a far. strncpy-outside n s t a m far)
