-- ===== src/Shell/Tokens.antt =====
-- What `gettoken` and `peek` take of the line.
use os182_ass.Prelude.{
  ◌==◌, if◌then◌else◌, Bool-cases, length, ℕ, ◌≤◌, ◌<◌, ◌≡◌, refl, sym, ap, ◌∙◌, ◌⊎◌, inl, inr,
  true, false, ◌||◌, List, [], ◌∷◌, arith,
}
use os182_ass.Shell.{
  strchr, whitespace, symbols, skip_space, word_loop, Token, token_at, gettoken, peek,
}

-- The bytes can stand in a word.
abbrev pub AreWordBytes : List ℕ → Type 0
AreWordBytes [] = Unit
AreWordBytes (c ∷ w) = ((strchr whitespace c || strchr symbols c) ≡ false) × AreWordBytes w

abbrev pub IsWord : List ℕ → Type 0
IsWord w = (0 < length w) × AreWordBytes w

cons_or_nil : (xs : List ℕ) → (xs ≡ []) ⊎ ((c : ℕ) × (p : List ℕ) × (xs ≡ c ∷ p))
cons_or_nil [] = inl refl
cons_or_nil (c ∷ p) = inr (c, p, refl)

pub length-skip_space : (s : List ℕ) → length (skip_space s) ≤ length s
unfolding skip_space
length-skip_space [] = omega arith
length-skip_space (c ∷ s) = elim (Bool-cases (strchr whitespace c)) [
  | inl h ↦ rw h (omega (arith, length-skip_space s))
  | inr h ↦ rw h (omega arith)
]

-- Behind the white space there is none.
skip_space-first :
    (s : List ℕ) {c : ℕ} {p : List ℕ} → skip_space s ≡ c ∷ p → strchr whitespace c ≡ false
unfolding skip_space
skip_space-first [] e = absurd cc
skip_space-first (d ∷ s) {c} {p} e = elim (Bool-cases (strchr whitespace d)) [
  | inl h ↦ skip_space-first s {c = c} {p = p} (sym (rw (h, skip_space) refl) ∙ e)
  | inr h ↦
      let both : d ∷ s ≡ c ∷ p = sym (rw (h, skip_space) refl) ∙ e in
      let same : d ≡ c = cc in ap (strchr whitespace) (sym same) ∙ h
]

length-word_loop : (s : List ℕ) → length (word_loop s).1 ≤ length s
unfolding word_loop
length-word_loop [] = omega arith
length-word_loop (c ∷ s) = elim (Bool-cases (strchr whitespace c || strchr symbols c)) [
  | inl h ↦ rw h (omega arith)
  | inr h ↦ rw h (omega (arith, length-word_loop s))
]

word_loop-AreWordBytes : (s : List ℕ) → AreWordBytes (word_loop s).0
unfolding word_loop
word_loop-AreWordBytes [] = tt
word_loop-AreWordBytes (c ∷ s) = elim (Bool-cases (strchr whitespace c || strchr symbols c)) [
  | inl h ↦ rw h tt
  | inr h ↦ rw h (h, word_loop-AreWordBytes s)
]

-- A token takes at least one byte, and the text of a word is a word.
abbrev Takes : List ℕ → Token → Type 0
Takes s t = (length t.left ≤ length s) × (t.ret ≡ 97 → IsWord t.text)

word-Takes :
    (c : ℕ) (s : List ℕ)
    → (strchr whitespace c || strchr symbols c) ≡ false
    → Takes s (record { ret = 97; text = (word_loop (c ∷ s)).0; left = (word_loop (c ∷ s)).1 })
unfolding word_loop
word-Takes c s h = rw h (length-word_loop s, λ e. (omega arith, (h, word_loop-AreWordBytes s)))

more-Takes :
    (s : List ℕ)
    → Takes s (elim s as (λ _. Token) [
      | [] ↦ record { ret = 62; text = 62 ∷ []; left = [] }
      | d ∷ s' ↦
          if d == 62
          then record { ret = 43; text = 62 ∷ 62 ∷ []; left = s' }
          else record { ret = 62; text = 62 ∷ []; left = d ∷ s' }
    ])
more-Takes [] = (omega arith, λ e. absurd (omega (arith, e)))
more-Takes (d ∷ s) = elim (Bool-cases (d == 62)) [
  | inl h ↦ rw h (omega arith, λ e. absurd (omega (arith, e)))
  | inr h ↦ rw h (omega arith, λ e. absurd (omega (arith, e)))
]

token_at-Takes : (c : ℕ) (s : List ℕ) → strchr whitespace c ≡ false → Takes s (token_at (c ∷ s))
unfolding token_at
token_at-Takes c s space = elim (Bool-cases (strchr (124 ∷ 40 ∷ 41 ∷ 59 ∷ 38 ∷ 60 ∷ []) c)) [
  | inl h ↦ rw h (omega arith, λ e. absurd (ground (arith, h, e)))
  | inr h ↦ rw h (elim (Bool-cases (c == 62)) [
    | inl g ↦ rw g (more-Takes s)
    | inr g ↦ rw g (word-Takes c s (ground (arith, space, h, g)))
  ])
]

module _ (s : List ℕ) {c : ℕ} {p : List ℕ} (e : skip_space s ≡ c ∷ p) where
  pub gettoken-shorter : length (gettoken s).left < length s
  unfolding gettoken
  gettoken-shorter =
      let t = token_at-Takes c p (skip_space-first s e) in
      rw e (
        omega
          (arith, length-skip_space (token_at (c ∷ p)).left, t.0, length-skip_space s, ap length e))

  pub gettoken-IsWord : (gettoken s).ret ≡ 97 → IsWord (gettoken s).text
  unfolding gettoken
  gettoken-IsWord = let t = token_at-Takes c p (skip_space-first s e) in rw e t.1

-- At the end of the line there is the token 0.
pub gettoken-cases :
    (s : List ℕ)
    → ((gettoken s).ret ≡ 0) × ((gettoken s).left ≡ []) × (skip_space s ≡ [])
      ⊎ ((length (gettoken s).left < length s) × ((gettoken s).ret ≡ 97 → IsWord (gettoken s).text))
unfolding gettoken token_at skip_space
gettoken-cases s = elim (cons_or_nil (skip_space s)) [
  | inl e ↦ inl (rw (e, gettoken) refl, rw (e, gettoken) refl, e)
  | inr (c, p, e) ↦ inr (gettoken-shorter s e, gettoken-IsWord s e)
]

pub peek-true : (toks s : List ℕ) → peek toks s ≡ true → length (gettoken s).left < length s
unfolding peek
peek-true toks s h = elim (cons_or_nil (skip_space s)) [
  | inl e ↦ absurd (let f : false ≡ true = sym (rw (e, peek) refl) ∙ h in cc)
  | inr (c, p, e) ↦ gettoken-shorter s e
]
