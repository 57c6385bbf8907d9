-- ===== src/Console/Line.antt =====
-- What the line buffer holds: bytes that a reader may take, and the line that is being edited.
use mathlib.Core.List.{append-nil, append_assoc}
use os182_ass.Prelude.{
  ◌==◌, if◌then◌else◌, length, All, length-append, ℕ, ◌+◌, ◌-◌, ◌%◌, ◌^◌, ◌≤◌, ◌<◌, ◌≡◌, refl, sym,
  ap, ◌∙◌, subst, ◌≢◌, List, [], ◌∷◌, ◌++◌, arith,
}
use os182_ass.Console.{input_buf, Input, down}

unfoldable pub reverse : List ℕ → List ℕ
reverse [] = []
reverse (x ∷ xs) = reverse xs ++ x ∷ []

-- The bytes from index `n` on.
abbrev pub Held : (ℕ → ℕ) → ℕ → List ℕ → Type 0
Held buf n [] = Unit
Held buf n (x ∷ xs) = (buf (n % input_buf) ≡ x) × Held buf (n + 1) xs

-- The bytes before index `n`, the last one first.
abbrev pub Before : (ℕ → ℕ) → ℕ → List ℕ → Type 0
Before buf n [] = Unit
Before buf n (x ∷ xs) = (buf (down n % input_buf) ≡ x) × Before buf (down n) xs

-- `ready` is what a reader may take, `line` the line that is edited, its last byte first.
pub record Buffers (i : Input) (ready line : List ℕ) : Type 0 where
  pub read_word : i.r < 2 ^ 32
  pub write_index : i.w ≡ (i.r + length ready) % 2 ^ 32
  pub edit_index : i.e ≡ (i.r + length ready + length line) % 2 ^ 32
  pub room : length ready + length line ≤ input_buf
  pub held : Held i.buf i.r ready
  pub edited : Before i.buf i.e line

-- The line that is edited has no newline.
abbrev pub Shows : Input → List ℕ → List ℕ → Type 0
Shows i ready line = Buffers i ready line × All (λ c. c ≢ 10) line

abbrev pub stored : (ℕ → ℕ) → ℕ → ℕ → ℕ → ℕ
stored buf k c j = if j == k then c else buf j

pub Held-stored :
    (buf : ℕ → ℕ) (n k c : ℕ) (xs : List ℕ)
    → ((j : ℕ) → j < length xs → (n + j) % input_buf ≢ k)
    → Held buf n xs
    → Held (stored buf k c) n xs
Held-stored buf n k c [] far h = tt
Held-stored buf n k c (x ∷ xs) far h =
    let here : n % input_buf ≢ k =
      λ e. far 0 (omega arith) (ap (λ m. m % input_buf) (omega arith) ∙ e) in
    (
      ground (arith, here, h.0),
      Held-stored buf (n + 1) k c xs
          (λ j lt e. far (j + 1) (omega (arith, lt)) (ap (λ m. m % input_buf) (omega arith) ∙ e))
          h.1,
    )

pub Before-stored :
    (buf : ℕ → ℕ) (n k c : ℕ) (xs : List ℕ)
    → n < 2 ^ 32
    → ((j : ℕ) → j < length xs → (n + (2 ^ 32 - 1 - j)) % input_buf ≢ k)
    → length xs ≤ input_buf
    → Before buf n xs
    → Before (stored buf k c) n xs
Before-stored buf n k c [] lt far few h = tt
Before-stored buf n k c (x ∷ xs) lt far few h =
    let here : down n % input_buf ≢ k = λ e. far 0 (omega arith) (omega (arith, e)) in
    (
      ground (arith, here, h.0),
      Before-stored buf (down n) k c xs (omega arith)
          (λ j l e. far (j + 1) (omega (arith, l)) (omega (arith, e, l, few))) (omega (arith, few))
          h.1,
    )

pub Held-mod :
    (buf : ℕ → ℕ) (n m : ℕ) (xs : List ℕ)
    → n % input_buf ≡ m % input_buf
    → Held buf n xs
    → Held buf m xs
Held-mod buf n m [] e h = tt
Held-mod buf n m (x ∷ xs) e h =
    (ap buf (sym e) ∙ h.0, Held-mod buf (n + 1) (m + 1) xs (omega (arith, e)) h.1)

pub Held-snoc :
    (buf : ℕ → ℕ) (n x : ℕ) (xs : List ℕ)
    → buf ((n + length xs) % input_buf) ≡ x
    → Held buf n xs
    → Held buf n (xs ++ x ∷ [])
Held-snoc buf n x [] e h = (ap buf (omega arith) ∙ e, tt)
Held-snoc buf n x (y ∷ xs) e h = (h.0, Held-snoc buf (n + 1) x xs (ap buf (omega arith) ∙ e) h.1)

pub length-reverse : (xs : List ℕ) → length (reverse xs) ≡ length xs
unfolding reverse
length-reverse [] = refl
length-reverse (x ∷ xs) = omega (arith, length-append (reverse xs) (x ∷ []), length-reverse xs)

-- The line behind the bytes that are ready.
pub Held-line :
    (buf : ℕ → ℕ) (n e : ℕ) (ready line : List ℕ)
    → e ≡ (n + length ready + length line) % 2 ^ 32
    → Held buf n ready
    → Before buf e line
    → Held buf n (ready ++ reverse line)
unfolding reverse
Held-line buf n e ready [] at h b = subst (Held buf n) (sym (append-nil ready)) h
Held-line buf n e ready (x ∷ line) at h b =
    subst (Held buf n) (append_assoc ready (reverse line) (x ∷ [])) (
      Held-snoc buf n x (ready ++ reverse line)
        (ap buf (omega (arith, at, length-append ready (reverse line), length-reverse line)) ∙ b.0)
        (Held-line buf n (down e) ready line (omega (arith, at)) h b.1))
