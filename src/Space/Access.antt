-- ===== src/Space/Access.antt =====
-- `clearpteu` and `uva2ka` of vm.c together.
use os182_ass.Prelude.{
  if◌then◌else◌, Option-cases, ℕ, ◌/◌, ◌^◌, ◌<◌, ◌≡◌, refl, sym, ap, ◌∙◌, ◌≢◌, inl, inr, not, some,
  arith,
}
use os182_ass.Prelude.Outcome.{ok}
use os182_ass.Prelude.Bits.{has_bit, bit_off}
use os182_ass.Prelude.BitLaws.{has_bit-bit_off_self}
use os182_ass.Memory.{Mem, pgsize, p2v, write, write_self, write_ne}
use os182_ass.Vm.Walk.{walk, pte_addr, IsTree, walk-write, walk-same_page}
use os182_ass.Kalloc.{Kmem}
use os182_ass.Space.{clearpteu, uva2ka}

-- The result of `uva2ka` for an entry.
abbrev user_address : ℕ → ℕ
user_address w = if not (has_bit 0 w) then 0 else if not (has_bit 2 w) then 0 else p2v (pte_addr w)

uva2ka-entry :
    (pgdir va : ℕ) (m : Mem) {pte : ℕ}
    → walk m pgdir va ≡ some pte
    → uva2ka pgdir va m ≡ ok (user_address (m pte))
unfolding uva2ka
uva2ka-entry pgdir va m e = rw (e, uva2ka) refl

pub walk-page :
    (m : Mem) (pgdir va vb : ℕ) → va / pgsize ≡ vb / pgsize → walk m pgdir va ≡ walk m pgdir vb
unfolding walk
walk-page m pgdir va vb e =
    let d : va / 2 ^ 22 ≡ vb / 2 ^ 22 = omega (arith, e) in
    let t : va / 2 ^ 12 ≡ vb / 2 ^ 12 = e in rw (d, t, walk) refl

-- Through the page of the write the user reaches nothing.
user_address-guarded : (w : ℕ) → user_address (bit_off 2 w) ≡ 0
user_address-guarded w = let off = has_bit-bit_off_self 2 w in ground (arith, off)

uva2ka-other :
    (pgdir uva va w : ℕ) (m : Mem) {pte : ℕ}
    → IsTree m pgdir
    → uva < 2 ^ 32
    → va < 2 ^ 32
    → walk m pgdir uva ≡ some pte
    → va / pgsize ≢ uva / pgsize
    → uva2ka pgdir va (write m pte w) ≡ uva2ka pgdir va m
unfolding uva2ka
uva2ka-other pgdir uva va w m {pte} tree lu lv e other =
    let moved = walk-write tree uva w e va in
    elim (Option-cases (walk m pgdir va)) [
      | inl none_there ↦ rw (moved, uva2ka) (rw (none_there, uva2ka) refl)
      | inr (p, there) ↦
          let apart : p ≢ pte =
            λ same. other (walk-same_page tree va uva lv lu (there ∙ ap some same) e) in
          uva2ka-entry pgdir va (write m pte w) (moved ∙ there)
          ∙ ap (λ x. ok (user_address x)) (write_ne m pte w p apart)
          ∙ sym (uva2ka-entry pgdir va m there)
    ]

-- In a page directory whose page table pages are different pages, `clearpteu` of an address that has
-- a page table entry succeeds; after it the user reaches nothing through the page of that address,
-- and every other page as before.
pub clearpteu-uva2ka :
    (pgdir uva : ℕ) (k : Kmem) {pte : ℕ}
    → IsTree k.mem pgdir
    → uva < 2 ^ 32
    → walk k.mem pgdir uva ≡ some pte
    → (k' : Kmem) × (clearpteu pgdir uva k ≡ ok k')
      × ((va : ℕ) → va / pgsize ≡ uva / pgsize → uva2ka pgdir va k'.mem ≡ ok 0)
      × ((va : ℕ)
          → va < 2 ^ 32
          → va / pgsize ≢ uva / pgsize
          → uva2ka pgdir va k'.mem ≡ uva2ka pgdir va k.mem)
unfolding clearpteu
clearpteu-uva2ka pgdir uva k {pte} tree lu e =
    let w = bit_off 2 (k.mem pte) in
    (
      record k { mem = write k.mem pte w },
      rw (e, clearpteu) refl,
      λ va same.
          uva2ka-entry pgdir va (write k.mem pte w)
            (walk-write tree uva w e va ∙ walk-page k.mem pgdir va uva same ∙ e)
          ∙ ap (λ x. ok (user_address x)) (write_self k.mem pte w)
          ∙ ap ok (user_address-guarded (k.mem pte)),
      λ va lv other. uva2ka-other pgdir uva va w k.mem tree lu lv e other,
    )
