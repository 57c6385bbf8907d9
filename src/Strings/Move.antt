-- ===== src/Strings/Move.antt =====
-- `memmove` copies as if it read all bytes first.
use os182_ass.Prelude.{
  ltb, leb, if◌then◌else◌, Bool-cases, ℕ, zero, suc, ◌+◌, ◌-◌, ◌≤◌, ◌<◌, ◌≡◌, ◌∙◌, ◌⊎◌, inl, inr,
  ◌&&◌, arith, dec_lt, ℕ_discrete,
}
use os182_ass.Strings.{Bytes, put, copy_up, copy_down, memmove}

-- `n` bytes from `s` on, at `d`.
abbrev pub moved : ℕ → ℕ → ℕ → Bytes → Bytes
moved d s n m a = if leb d a && ltb a (d + n) then m (s + (a - d)) else m a

copy_up-moved :
    (n d s : ℕ) (m : Bytes) (a : ℕ) → (d ≤ s) ⊎ (s + n ≤ d) → copy_up n d s m a ≡ moved d s n m a
unfolding copy_up put
copy_up-moved zero d s m a h = ground arith
copy_up-moved (suc n) d s m a h =
    copy_up-moved n (d + 1) (s + 1) (put m d (m s)) a (ground arith) ∙ first
  where
    same : d < a → s + 1 + (a - (d + 1)) ≡ s + (a - d)
    same lt = omega arith

    at : a ≡ d → s + (a - d) ≡ s
    at e = omega arith

    first : moved (d + 1) (s + 1) n (put m d (m s)) a ≡ moved d s (suc n) m a
    first = elim (dec_lt d a) [
      | yes lt ↦ rw (same lt) (ground arith)
      | no ge ↦ elim (ℕ_discrete a d) [ yes e ↦ rw (at e) (ground arith) | no ne ↦ ground arith ]
    ]

copy_down-moved :
    (n d s : ℕ) (m : Bytes) (a : ℕ) → s < d → copy_down n (d + n) (s + n) m a ≡ moved d s n m a
unfolding copy_down put
copy_down-moved zero d s m a h = ground arith
copy_down-moved (suc n) d s m a h =
    rw (before d, before s) (copy_down-moved n d s (put m (d + n) (m (s + n))) a h ∙ last)
  where
    before : (x : ℕ) → x + suc n - 1 ≡ x + n
    before x = omega arith

    at : a ≡ d + n → s + (a - d) ≡ s + n
    at e = omega arith

    last : moved d s n (put m (d + n) (m (s + n))) a ≡ moved d s (suc n) m a
    last = elim (ℕ_discrete a (d + n)) [ yes e ↦ rw (at e) (ground arith) | no ne ↦ ground arith ]

-- `memmove` leaves at the destination the bytes that were at the source, also where the two
-- overlap, and no other byte changes.
pub memmove-moved : (d s n : ℕ) (m : Bytes) (a : ℕ) → memmove d s n m a ≡ moved d s n m a
unfolding memmove
memmove-moved d s n m a = elim (Bool-cases (ltb s d && ltb d (s + n))) [
  | inl h ↦ rw h (copy_down-moved n d s m a (ground arith))
  | inr h ↦ rw h (copy_up-moved n d s m a (ground arith))
]
