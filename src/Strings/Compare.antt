-- ===== src/Strings/Compare.antt =====
-- The comparisons of string.c. A difference of two bytes is an int, kept modulo `2 ^ 32`.
use os182_ass.Prelude.{
  ◌==◌, if◌then◌else◌, Bool-cases, ℕ, zero, suc, ◌+◌, ◌-◌, ◌%◌, ◌^◌, ◌<◌, ◌≡◌, refl, ap, ◌∙◌, ◌≢◌,
  ◌↔◌, inl, inr, true, false, not, ◌&&◌, Option, none, some, arith, ℕ_discrete,
}
use os182_ass.Fs.Names.{dirsiz}
use os182_ass.Strings.{Bytes}

-- `*p - *q`
abbrev pub byte_diff : ℕ → ℕ → ℕ
byte_diff a b = (a + (2 ^ 32 - b)) % 2 ^ 32

unfoldable pub memcmp : ℕ → ℕ → ℕ → Bytes → ℕ
memcmp v1 v2 zero m = 0
memcmp v1 v2 (suc n) m =
    let rest = memcmp (suc v1) (suc v2) n m in
    if m v1 == m v2 then rest else byte_diff (m v1) (m v2)

unfoldable pub strncmp : ℕ → ℕ → ℕ → Bytes → ℕ
strncmp p q zero m = 0
strncmp p q (suc n) m =
    let rest = strncmp (suc p) (suc q) n m in
    if not (m p == 0) && (m p == m q) then rest else byte_diff (m p) (m q)

unfoldable pub namecmp : ℕ → ℕ → Bytes → ℕ
namecmp s t m = strncmp s t dirsiz m

-- `fuel` bounds the bytes that are read.
unfoldable pub strlen : ℕ → ℕ → Bytes → Option ℕ
strlen zero s m = none
strlen (suc fuel) s m = elim (strlen fuel (suc s) m) [
  | none ↦ if m s == 0 then some 0 else none
  | some n ↦ if m s == 0 then some 0 else some (suc n)
]

byte_diff-zero : (a b : ℕ) → a < 2 ^ 8 → b < 2 ^ 8 → byte_diff a b ≡ 0 → a ≡ b
byte_diff-zero a b la lb e = omega (arith, la, lb, e)

byte_diff_self : (a b : ℕ) → a < 2 ^ 8 → a ≡ b → byte_diff a b ≡ 0
byte_diff_self a b la e = omega (arith, la, e)

-- `memcmp` is 0 just when the `n` bytes are the same.
pub memcmp_lem :
    (n v1 v2 : ℕ) (m : Bytes)
    → ((a : ℕ) → m a < 2 ^ 8)
    → (memcmp v1 v2 n m ≡ 0) ↔ ((i : ℕ) → i < n → m (v1 + i) ≡ m (v2 + i))
unfolding memcmp
memcmp_lem zero v1 v2 m bytes = (λ e i lt. absurd (omega (arith, lt)), λ same. refl)
memcmp_lem (suc n) v1 v2 m bytes =
    let (to, from) = memcmp_lem n (suc v1) (suc v2) m bytes in
    elim (ℕ_discrete (m v1) (m v2)) [
      | yes e ↦
          let first : (m v1 == m v2) ≡ true = ground (arith, e) in
          rw first (
            λ z i lt. elim (ℕ_discrete i 0) [
              | yes i0 ↦ ap m (omega (arith, i0)) ∙ e ∙ ap m (omega (arith, i0))
              | no pos ↦
                  ap m (omega (arith, pos))
                  ∙ to z (i - 1) (omega (arith, lt, pos))
                  ∙ ap m (omega (arith, pos))
            ],
            λ same. from (λ i lt.
                ap m (omega arith) ∙ same (suc i) (omega (arith, lt)) ∙ ap m (omega arith)),
          )
      | no ne ↦
          let first : (m v1 == m v2) ≡ false = ground (arith, ne) in
          rw first (
            λ z. absurd (ne (byte_diff-zero (m v1) (m v2) (bytes v1) (bytes v2) z)),
            λ same. absurd (ne (ap m (omega arith) ∙ same 0 (omega arith) ∙ ap m (omega arith))),
          )
    ]

-- `strncmp` is 0 just when the strings agree in each of the first `n` bytes up to the end of the
-- first one, its null byte included.
pub strncmp_lem :
    (n p q : ℕ) (m : Bytes)
    → ((a : ℕ) → m a < 2 ^ 8)
    → (strncmp p q n m ≡ 0)
      ↔ ((i : ℕ) → i < n → ((j : ℕ) → j < i → m (p + j) ≢ 0) → m (p + i) ≡ m (q + i))
unfolding strncmp
strncmp_lem zero p q m bytes = (λ e i lt. absurd (omega (arith, lt)), λ same. refl)
strncmp_lem (suc n) p q m bytes =
    let (to, from) = strncmp_lem n (suc p) (suc q) m bytes in
    elim (Bool-cases (not (m p == 0) && (m p == m q))) [
      | inl go ↦
          let e : m p ≡ m q = ground (arith, go) in
          let ne : m p ≢ 0 = ground (arith, go) in
          rw go (
            λ z i lt before. elim (ℕ_discrete i 0) [
              | yes i0 ↦ ap m (omega (arith, i0)) ∙ e ∙ ap m (omega (arith, i0))
              | no pos ↦
                  ap m (omega (arith, pos))
                  ∙ to z (i - 1) (omega (arith, lt, pos)) (λ j jl zero_byte.
                    before (suc j) (omega (arith, jl, pos)) (ap m (omega arith) ∙ zero_byte))
                  ∙ ap m (omega (arith, pos))
            ],
            λ same. from (λ i lt before.
                ap m (omega arith)
                ∙ same (suc i) (omega (arith, lt)) (λ j jl. elim (ℕ_discrete j 0) [
                  | yes j0 ↦ λ zero_byte. ne (ap m (omega (arith, j0)) ∙ zero_byte)
                  | no pos ↦ λ zero_byte.
                      before (j - 1) (omega (arith, jl, pos))
                        (ap m (omega (arith, pos)) ∙ zero_byte)
                ])
                ∙ ap m (omega arith)),
          )
      | inr stop ↦ rw stop (
        λ z i lt before.
            let e = byte_diff-zero (m p) (m q) (bytes p) (bytes q) z in
            elim (ℕ_discrete i 0) [
              | yes i0 ↦ ap m (omega (arith, i0)) ∙ e ∙ ap m (omega (arith, i0))
              | no pos ↦
                  let not_end : m p ≢ 0 =
                    λ zero_byte. before 0 (omega (arith, pos)) (ap m (omega arith) ∙ zero_byte) in
                  absurd (ground (arith, stop, e, not_end))
            ],
        λ same.
            let here : m p ≡ m q =
              ap m (omega arith)
              ∙ same 0 (omega arith) (λ j jl. absurd (omega (arith, jl)))
              ∙ ap m (omega arith) in
            byte_diff_self (m p) (m q) (bytes p) here,
      )
    ]
