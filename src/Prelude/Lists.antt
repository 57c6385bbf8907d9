-- ===== src/Prelude/Lists.antt =====
-- C arrays as lists measured and indexed by native numbers, under the library's names.
use Prim.Native.Nat.{ℕ, zero, suc, ◌+◌, ◌-◌, ◌≤◌, ◌<◌}
use mathlib.Core.Path.{◌≡◌, refl, ap, ◌∙◌}
use mathlib.Core.Logic.{◌≢◌}
use mathlib.Core.List.{List, [], ◌∷◌, ◌++◌, map}
use mathlib.Core.Option.{Option, none, some}
use native.Mathlib.Omega.{arith}

module _ {ℓ} {A : Type ℓ} where
  abbrev pub length : List A → ℕ
  length [] = 0
  length (x ∷ xs) = suc (length xs)

  abbrev pub get_elem? : List A → ℕ → Option A
  get_elem? [] i = none
  get_elem? (x ∷ xs) zero = some x
  get_elem? (x ∷ xs) (suc i) = get_elem? xs i

  abbrev pub get_or : List A → ℕ → A → A
  get_or [] i d = d
  get_or (x ∷ xs) zero d = x
  get_or (x ∷ xs) (suc i) d = get_or xs i d

  -- A write out of bounds changes nothing.
  abbrev pub set : List A → ℕ → A → List A
  set [] i v = []
  set (x ∷ xs) zero v = v ∷ xs
  set (x ∷ xs) (suc i) v = x ∷ set xs i v

  abbrev pub take : ℕ → List A → List A
  take zero xs = []
  take (suc n) [] = []
  take (suc n) (x ∷ xs) = x ∷ take n xs

  abbrev pub drop : ℕ → List A → List A
  drop zero xs = xs
  drop (suc n) [] = []
  drop (suc n) (x ∷ xs) = drop n xs

  abbrev pub replicate : ℕ → A → List A
  replicate zero a = []
  replicate (suc n) a = a ∷ replicate n a

  -- The list without its `i`th item.
  abbrev pub remove_at : ℕ → List A → List A
  remove_at i [] = []
  remove_at zero (x ∷ xs) = xs
  remove_at (suc i) (x ∷ xs) = x ∷ remove_at i xs

  abbrev pub All {κ} : (A → Type κ) → List A → Type κ
  All P [] = Unit
  All P (x ∷ xs) = P x × All P xs

module _ {ℓ} {A : Type ℓ} where
  pub length-append : (xs ys : List A) → length (xs ++ ys) ≡ length xs + length ys
  length-append [] ys = omega arith
  length-append (x ∷ xs) ys = omega (arith, length-append xs ys)

  pub length-set : (xs : List A) (i : ℕ) (v : A) → length (set xs i v) ≡ length xs
  length-set [] i v = refl
  length-set (x ∷ xs) zero v = refl
  length-set (x ∷ xs) (suc i) v = ap suc (length-set xs i v)

  pub length-replicate : (n : ℕ) (a : A) → length (replicate n a) ≡ n
  length-replicate zero a = refl
  length-replicate (suc n) a = ap suc (length-replicate n a)

  pub length-remove_at :
      (i : ℕ) (xs : List A) → i < length xs → suc (length (remove_at i xs)) ≡ length xs
  length-remove_at i [] h = absurd (omega arith)
  length-remove_at zero (x ∷ xs) h = refl
  length-remove_at (suc i) (x ∷ xs) h = ap suc (length-remove_at i xs (omega arith))

  pub length-map {κ} : {B : Type κ} (f : A → B) (xs : List A) → length (map f xs) ≡ length xs
  length-map f [] = refl
  length-map f (x ∷ xs) = ap suc (length-map f xs)

  pub get_elem?-set_self :
      (xs : List A) (i : ℕ) (v : A) → i < length xs → get_elem? (set xs i v) i ≡ some v
  get_elem?-set_self [] i v h = elim h [ ]
  get_elem?-set_self (x ∷ xs) zero v h = refl
  get_elem?-set_self (x ∷ xs) (suc i) v h = get_elem?-set_self xs i v (omega arith)

  pub get_elem?-set_ne :
      (xs : List A) {i j : ℕ} (v : A) → i ≢ j → get_elem? (set xs i v) j ≡ get_elem? xs j
  get_elem?-set_ne [] v h = refl
  get_elem?-set_ne (x ∷ xs) {i = zero} {j = zero} v h = absurd (h refl)
  get_elem?-set_ne (x ∷ xs) {i = zero} {j = suc j} v h = refl
  get_elem?-set_ne (x ∷ xs) {i = suc i} {j = zero} v h = refl
  get_elem?-set_ne (x ∷ xs) {i = suc i} {j = suc j} v h = get_elem?-set_ne xs v (λ e. h (ap suc e))

  pub get_elem?-lt : (xs : List A) (i : ℕ) {x : A} → get_elem? xs i ≡ some x → i < length xs
  get_elem?-lt [] i h = cc
  get_elem?-lt (y ∷ xs) zero h = omega arith
  get_elem?-lt (y ∷ xs) (suc i) h = omega (arith, get_elem?-lt xs i h)

  pub get_elem?-some : (xs : List A) (i : ℕ) → i < length xs → (x : A) × (get_elem? xs i ≡ some x)
  get_elem?-some [] i h = absurd (omega arith)
  get_elem?-some (x ∷ xs) zero h = (x, refl)
  get_elem?-some (x ∷ xs) (suc i) h = get_elem?-some xs i (omega arith)

  pub get_elem?-none : (xs : List A) (i : ℕ) → length xs ≤ i → get_elem? xs i ≡ none
  get_elem?-none [] i h = refl
  get_elem?-none (x ∷ xs) zero h = absurd (omega arith)
  get_elem?-none (x ∷ xs) (suc i) h = get_elem?-none xs i (omega arith)

  pub get_elem?-map {κ} :
      {B : Type κ} (f : A → B) (xs : List A) (i : ℕ) {x : A}
      → get_elem? xs i ≡ some x
      → get_elem? (map f xs) i ≡ some (f x)
  get_elem?-map f [] i h = cc
  get_elem?-map f (y ∷ xs) zero h = cc
  get_elem?-map f (y ∷ xs) (suc i) h = get_elem?-map f xs i h

  pub take-nil : (n : ℕ) → take {A = A} n [] ≡ []
  take-nil zero = refl
  take-nil (suc n) = refl

  pub append-cons : (xs : List A) (y : A) (ys : List A) → xs ++ y ∷ ys ≡ (xs ++ y ∷ []) ++ ys
  append-cons [] y ys = refl
  append-cons (x ∷ xs) y ys = ap (λ l. x ∷ l) (append-cons xs y ys)

  pub get_or-set_self :
      (xs : List A) (i : ℕ) (v d : A) → i < length xs → get_or (set xs i v) i d ≡ v
  get_or-set_self [] i v d h = absurd (omega arith)
  get_or-set_self (x ∷ xs) zero v d h = refl
  get_or-set_self (x ∷ xs) (suc i) v d h = get_or-set_self xs i v d (omega arith)

  pub get_or-set_ne :
      (xs : List A) {i j : ℕ} (v d : A) → i ≢ j → get_or (set xs i v) j d ≡ get_or xs j d
  get_or-set_ne [] v d h = refl
  get_or-set_ne (x ∷ xs) {i = zero} {j = zero} v d h = absurd (h refl)
  get_or-set_ne (x ∷ xs) {i = zero} {j = suc j} v d h = refl
  get_or-set_ne (x ∷ xs) {i = suc i} {j = zero} v d h = refl
  get_or-set_ne (x ∷ xs) {i = suc i} {j = suc j} v d h = get_or-set_ne xs v d (λ e. h (ap suc e))

  pub take-append :
      (k : ℕ) (xs ys : List A) → take k (xs ++ ys) ≡ take k xs ++ take (k - length xs) ys
  take-append k [] ys = let e : k ≡ k - 0 = omega arith in rw (take-nil k) (ap (λ n. take n ys) e)
  take-append zero (x ∷ xs) ys =
      let e : zero ≡ zero - suc (length xs) = omega arith in ap (λ n. take n ys) e
  take-append (suc k) (x ∷ xs) ys =
      let e : k - length xs ≡ suc k - suc (length xs) = omega arith in
      ap (λ l. x ∷ l) (take-append k xs ys ∙ ap (λ n. take k xs ++ take n ys) e)

  pub take-first : (xs ys : List A) → take (length xs) (xs ++ ys) ≡ xs
  take-first [] ys = refl
  take-first (x ∷ xs) ys = ap (λ l. x ∷ l) (take-first xs ys)

  pub take-drop : (k : ℕ) (xs : List A) → take k xs ++ drop k xs ≡ xs
  take-drop zero xs = refl
  take-drop (suc k) [] = refl
  take-drop (suc k) (x ∷ xs) = ap (λ l. x ∷ l) (take-drop k xs)

  pub take-all : (k : ℕ) (xs : List A) → length xs ≤ k → take k xs ≡ xs
  take-all zero [] h = refl
  take-all (suc k) [] h = refl
  take-all zero (x ∷ xs) h = absurd (omega arith)
  take-all (suc k) (x ∷ xs) h = ap (λ l. x ∷ l) (take-all k xs (omega arith))

  pub length-take : (n : ℕ) (xs : List A) → n ≤ length xs → length (take n xs) ≡ n
  length-take zero xs h = refl
  length-take (suc n) [] h = absurd (omega arith)
  length-take (suc n) (x ∷ xs) h = ap suc (length-take n xs (omega arith))

  pub All-take {κ} : (P : A → Type κ) (n : ℕ) (xs : List A) → All P xs → All P (take n xs)
  All-take P zero xs h = tt
  All-take P (suc n) [] h = tt
  All-take P (suc n) (x ∷ xs) h = (h.0, All-take P n xs h.1)
