-- ===== src/Prelude/BitLaws.antt =====
-- Setting or clearing one bit of a word leaves the others alone.
use native.Mathlib.Nat.{div-div-eq-div-mul}
use os182_ass.Prelude.{
  ◌==◌, Bool-cases, ℕ, zero, suc, ◌/◌, ◌%◌, ◌^◌, ◌≤◌, ◌≡◌, refl, sym, ap, ◌∙◌, ◌≢◌, inl, inr, true,
  false, arith,
}
use os182_ass.Prelude.Bits.{has_bit, bit_on, bit_off}

pub has_bit-suc : (j w : ℕ) → has_bit (suc j) w ≡ has_bit j (w / 2)
has_bit-suc j w =
    ap (λ q. q % 2 == 1) (ap (λ p. w / p) (omega arith) ∙ sym (div-div-eq-div-mul w 2 (2 ^ j)))

bit_on-half : (k w : ℕ) → bit_on (suc k) w / 2 ≡ bit_on k (w / 2)
bit_on-half k w = elim (Bool-cases (has_bit k (w / 2))) [
  | inl h ↦ rw (has_bit-suc k w, h) refl
  | inr h ↦ rw (has_bit-suc k w, h) (omega arith)
]

bit_on-parity : (k w : ℕ) → bit_on (suc k) w % 2 ≡ w % 2
bit_on-parity k w = elim (Bool-cases (has_bit (suc k) w)) [
  | inl h ↦ rw h refl
  | inr h ↦ rw h (omega arith)
]

bit_off-half : (k w : ℕ) → bit_off (suc k) w / 2 ≡ bit_off k (w / 2)
bit_off-half k w = elim (Bool-cases (has_bit k (w / 2))) [
  | inl h ↦ rw (has_bit-suc k w, h) (omega arith)
  | inr h ↦ rw (has_bit-suc k w, h) refl
]

has_bit-le : (k w : ℕ) → has_bit k w ≡ true → 2 ^ k ≤ w
has_bit-le zero w h = ground (arith, h)
has_bit-le (suc k) w h = omega (arith, has_bit-le k (w / 2) (sym (has_bit-suc k w) ∙ h))

bit_off-parity : (k w : ℕ) → bit_off (suc k) w % 2 ≡ w % 2
bit_off-parity k w = elim (Bool-cases (has_bit (suc k) w)) [
  | inl h ↦ rw h (omega (arith, has_bit-le (suc k) w h))
  | inr h ↦ rw h refl
]

pub has_bit-bit_on_ne : (k j w : ℕ) → j ≢ k → has_bit j (bit_on k w) ≡ has_bit j w
has_bit-bit_on_ne zero zero w ne = absurd (ne refl)
has_bit-bit_on_ne zero (suc j) w ne =
    has_bit-suc j (bit_on 0 w) ∙ ap (has_bit j) (ground arith) ∙ sym (has_bit-suc j w)
has_bit-bit_on_ne (suc k) zero w ne = ground (arith, bit_on-parity k w)
has_bit-bit_on_ne (suc k) (suc j) w ne =
    has_bit-suc j (bit_on (suc k) w)
    ∙ ap (has_bit j) (bit_on-half k w)
    ∙ has_bit-bit_on_ne k j (w / 2) (λ e. ne (ap suc e))
    ∙ sym (has_bit-suc j w)

pub has_bit-bit_on_self : (k w : ℕ) → has_bit k (bit_on k w) ≡ true
has_bit-bit_on_self zero w = ground arith
has_bit-bit_on_self (suc k) w =
    has_bit-suc k (bit_on (suc k) w)
    ∙ ap (has_bit k) (bit_on-half k w)
    ∙ has_bit-bit_on_self k (w / 2)

pub has_bit-bit_off_ne : (k j w : ℕ) → j ≢ k → has_bit j (bit_off k w) ≡ has_bit j w
has_bit-bit_off_ne zero zero w ne = absurd (ne refl)
has_bit-bit_off_ne zero (suc j) w ne =
    has_bit-suc j (bit_off 0 w) ∙ ap (has_bit j) (ground arith) ∙ sym (has_bit-suc j w)
has_bit-bit_off_ne (suc k) zero w ne = ground (arith, bit_off-parity k w)
has_bit-bit_off_ne (suc k) (suc j) w ne =
    has_bit-suc j (bit_off (suc k) w)
    ∙ ap (has_bit j) (bit_off-half k w)
    ∙ has_bit-bit_off_ne k j (w / 2) (λ e. ne (ap suc e))
    ∙ sym (has_bit-suc j w)

pub has_bit-bit_off_self : (k w : ℕ) → has_bit k (bit_off k w) ≡ false
has_bit-bit_off_self zero w = ground arith
has_bit-bit_off_self (suc k) w =
    has_bit-suc k (bit_off (suc k) w)
    ∙ ap (has_bit k) (bit_off-half k w)
    ∙ has_bit-bit_off_self k (w / 2)
