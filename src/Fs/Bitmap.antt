-- ===== src/Fs/Bitmap.antt =====
-- The free map: one bit for each block.
use mathlib.Core.Path.{fun_ext}
use os182_ass.Prelude.{
  ◌==◌, if◌then◌else◌, Bool-cases, ℕ, zero, suc, ◌+◌, ◌/◌, ◌%◌, ◌≤◌, ◌<◌, ◌≡◌, refl, sym, ap, ap₂,
  ◌∙◌, ◌≢◌, ◌⊎◌, inl, inr, Bool, true, false, ◌&&◌, arith, ℕ_discrete,
}
use os182_ass.Prelude.Outcome.{ok, panic}
use os182_ass.Prelude.Bits.{has_bit, bit_on, bit_off}
use os182_ass.Prelude.BitLaws.{
  has_bit-bit_on_ne, has_bit-bit_on_self, has_bit-bit_off_ne, has_bit-bit_off_self,
}
use os182_ass.Fs.{bpb, Superblock, bblock, Fs, store, bzero, map_byte, balloc_loop, balloc, bfree}

-- The bit of block `b` is set.
abbrev pub in_use : Superblock → Fs → ℕ → Bool
in_use sb fs b = has_bit (b % bpb % 8) (map_byte sb b fs)

-- The blocks of the free map are themselves in use.
abbrev pub MapInUse : Superblock → Fs → Type 0
MapInUse sb fs = (c : ℕ) → c < sb.size → in_use sb fs (bblock c sb) ≡ true

-- A write to the byte of block `b` that changes its bit to `v` changes no other bit.
store-in_use :
    (sb : Superblock) (fs : Fs) (b w : ℕ)
    → ((j : ℕ) → j ≢ b % bpb % 8 → has_bit j w ≡ has_bit j (map_byte sb b fs))
    → (c : ℕ)
    → in_use sb (store (bblock b sb) (b % bpb / 8) w fs) c
      ≡ (if c == b then has_bit (b % bpb % 8) w else in_use sb fs c)
unfolding store
store-in_use sb fs b w others c = elim (ℕ_discrete c b) [
  | yes same ↦ rw same (ground arith)
  | no other ↦ elim (Bool-cases ((bblock c sb == bblock b sb) && (c % bpb / 8 == b % bpb / 8))) [
    | inr h ↦ ground (arith, h, other)
    | inl h ↦
        let bit : c % bpb % 8 ≢ b % bpb % 8 = λ e. other (ground (arith, h, e)) in
        let byte : map_byte sb c fs ≡ map_byte sb b fs =
          ap₂ fs.blocks (ground (arith, h)) (ground (arith, h)) in
        let keep = others (c % bpb % 8) bit in ground (arith, h, other, keep, byte)
  ]
]

-- What `balloc` does when it finds block `b`.
pub record Allocates (sb : Superblock) (fs : Fs) : Type 0 where
  pub block : ℕ
  pub after : Fs
  pub small : block < sb.size
  pub was_free : in_use sb fs block ≡ false
  pub before : (c : ℕ) → c < block → in_use sb fs c ≡ true
  pub runs : balloc sb fs ≡ ok (block, after)
  pub now_used :
      (c : ℕ) → c < sb.size → in_use sb after c ≡ (if c == block then true else in_use sb fs c)
  pub zeroed : (o : ℕ) → after.blocks block o ≡ 0
  pub others : (a : ℕ) → a ≢ block → a ≢ bblock block sb → after.blocks a ≡ fs.blocks a

balloc_loop-finds :
    (rounds b : ℕ) (sb : Superblock) (fs : Fs)
    → ((k : ℕ) × (b ≤ k)
        × (k < b + rounds)
        × (in_use sb fs k ≡ false)
        × ((c : ℕ) → b ≤ c → c < k → in_use sb fs c ≡ true)
        × (balloc_loop rounds b sb fs
            ≡ ok (
              k,
              bzero k
                  (store (bblock k sb) (k % bpb / 8) (bit_on (k % bpb % 8) (map_byte sb k fs)) fs),
            )))
      ⊎ (((c : ℕ) → b ≤ c → c < b + rounds → in_use sb fs c ≡ true)
          × (balloc_loop rounds b sb fs ≡ panic))
unfolding balloc_loop
balloc_loop-finds zero b sb fs = inr (λ c lo hi. absurd (omega arith), refl)
balloc_loop-finds (suc rounds) b sb fs = elim (Bool-cases (in_use sb fs b)) [
  | inr free ↦
      inl (b, omega arith, omega arith, free, λ c lo hi. absurd (omega arith), rw free refl)
  | inl used ↦ elim (balloc_loop-finds rounds (suc b) sb fs) [
    | inl (k, lo, hi, free, all, runs) ↦
        inl (k, omega arith, omega arith, free, λ c cl ch. here used c (all c) cl ch, rw used runs)
    | inr (all, runs) ↦
        inr (λ c cl ch. here used c (λ l h. all c l (omega arith)) cl ch, rw used runs)
  ]
]
  where
    here :
        in_use sb fs b ≡ true
        → (c : ℕ) {k : ℕ} → (suc b ≤ c → c < k → in_use sb fs c ≡ true)
        → b ≤ c
        → c < k
        → in_use sb fs c ≡ true
    here used c rest lo hi = elim (ℕ_discrete c b) [
      | yes same ↦ ap (in_use sb fs) same ∙ used
      | no other ↦ rest (omega arith) hi
    ]

store_block : (fs : Fs) (a off v c : ℕ) → c ≢ a → (store a off v fs).blocks c ≡ fs.blocks c
unfolding store
store_block fs a off v c ne = fun_ext (λ o. ground (arith, ne))

bzero_block : (fs : Fs) (k c : ℕ) → c ≢ k → (bzero k fs).blocks c ≡ fs.blocks c
unfolding bzero
bzero_block fs k c ne = fun_ext (λ o. ground (arith, ne))

bzero-zero : (fs : Fs) (k o : ℕ) → (bzero k fs).blocks k o ≡ 0
unfolding bzero
bzero-zero fs k o = ground arith

bzero-in_use :
    (sb : Superblock) (fs : Fs) (k c : ℕ)
    → bblock c sb ≢ k
    → in_use sb (bzero k fs) c ≡ in_use sb fs c
unfolding bzero
bzero-in_use sb fs k c ne = ground (arith, ne)

-- Where the free map is itself in use, `balloc` takes the first free block, marks it and no other in
-- the free map and fills it with zeros; no further block changes. It panics just when no block is
-- free.
pub balloc_lem :
    (sb : Superblock) (fs : Fs)
    → MapInUse sb fs
    → Allocates sb fs ⊎ (((c : ℕ) → c < sb.size → in_use sb fs c ≡ true) × (balloc sb fs ≡ panic))
unfolding balloc
balloc_lem sb fs map_used = elim (balloc_loop-finds sb.size 0 sb fs) [
  | inr (all, runs) ↦ inr (λ c lt. all c (omega arith) (omega arith), runs)
  | inl (k, lo, hi, free, all, runs) ↦
      inl (found k (omega arith) free (λ c lt. all c (omega arith) lt) runs)
]
  where
    marked : ℕ → Fs
    marked k = store (bblock k sb) (k % bpb / 8) (bit_on (k % bpb % 8) (map_byte sb k fs)) fs

    bits :
        (k c : ℕ)
        → in_use sb fs k ≡ false
        → c < sb.size
        → in_use sb (bzero k (marked k)) c ≡ (if c == k then true else in_use sb fs c)
    bits k c free lt =
        let ne : bblock c sb ≢ k = λ e.
          absurd (let h : true ≡ false = sym (map_used c lt) ∙ ap (in_use sb fs) e ∙ free in cc) in
        bzero-in_use sb (marked k) k c ne
        ∙ store-in_use sb fs k (bit_on (k % bpb % 8) (map_byte sb k fs))
            (λ j other. has_bit-bit_on_ne (k % bpb % 8) j (map_byte sb k fs) other) c
        ∙ ap (λ h. if c == k then h else in_use sb fs c)
            (has_bit-bit_on_self (k % bpb % 8) (map_byte sb k fs))

    found :
        (k : ℕ)
        → k < sb.size
        → in_use sb fs k ≡ false
        → ((c : ℕ) → c < k → in_use sb fs c ≡ true)
        → balloc_loop sb.size 0 sb fs ≡ ok (k, bzero k (marked k))
        → Allocates sb fs
    found k lt free all runs = record {
      block = k;
      after = bzero k (marked k);
      small = lt;
      was_free = free;
      before = all;
      runs = runs;
      now_used = λ c cl. bits k c free cl;
      zeroed = λ o. bzero-zero (marked k) k o;
      others = λ a ne nm.
          bzero_block (marked k) k a ne
          ∙ store_block fs (bblock k sb) (k % bpb / 8) (bit_on (k % bpb % 8) (map_byte sb k fs)) a
              nm;
    }

-- `bfree` panics on a block that is free, and otherwise clears its bit and no other.
pub bfree_lem :
    (sb : Superblock) (fs : Fs) (b : ℕ)
    → ((in_use sb fs b ≡ false) × (bfree sb b fs ≡ panic))
      ⊎ ((in_use sb fs b ≡ true)
          × (after : Fs) × (bfree sb b fs ≡ ok after)
          × ((c : ℕ) → in_use sb after c ≡ (if c == b then false else in_use sb fs c))
          × ((a : ℕ) → a ≢ bblock b sb → after.blocks a ≡ fs.blocks a))
unfolding bfree
bfree_lem sb fs b = elim (Bool-cases (in_use sb fs b)) [
  | inr free ↦ inl (free, rw free refl)
  | inl used ↦ inr (
    used,
    cleared,
    rw used refl,
    λ c.
        store-in_use sb fs b (bit_off (b % bpb % 8) (map_byte sb b fs))
          (λ j other. has_bit-bit_off_ne (b % bpb % 8) j (map_byte sb b fs) other) c
        ∙ ap (λ h. if c == b then h else in_use sb fs c)
            (has_bit-bit_off_self (b % bpb % 8) (map_byte sb b fs)),
    λ a ne.
        store_block fs (bblock b sb) (b % bpb / 8) (bit_off (b % bpb % 8) (map_byte sb b fs)) a ne,
  )
]
  where
    cleared : Fs
    cleared = store (bblock b sb) (b % bpb / 8) (bit_off (b % bpb % 8) (map_byte sb b fs)) fs
