-- ===== src/Fs/Names.antt =====
-- Path names of fs.c. A string is the list of its bytes before the null byte, and `name` is what
-- `skipelem` leaves in its buffer of `DIRSIZ` bytes, up to a null byte.
use os182_ass.Prelude.{
  ◌==◌, if◌then◌else◌, Bool-cases, length, take, ℕ, zero, suc, ◌≤◌, ◌<◌, ◌≡◌, refl, sym, ap, ◌∙◌,
  subst, ◌≢◌, ◌⊎◌, inl, inr, false, Option, none, some, List, [], ◌∷◌, map, arith, ℕ_discrete,
}

abbrev pub dirsiz : ℕ
dirsiz = 14

abbrev pub slash : ℕ
slash = 47

-- `while(*path == '/') path++`
unfoldable pub skip_slashes : List ℕ → List ℕ
skip_slashes [] = []
skip_slashes (c ∷ path) = let rest = skip_slashes path in if c == slash then rest else c ∷ path

-- `while(*path != '/' && *path != 0) path++`: the bytes passed over, and the rest.
unfoldable pub scan_elem : List ℕ → List ℕ × List ℕ
scan_elem [] = ([], [])
scan_elem (c ∷ path) =
    let (s, rest) = scan_elem path in if c == slash then ([], c ∷ path) else (c ∷ s, rest)

-- The name and the rest of the path; `none` is the null pointer.
unfoldable pub skipelem : List ℕ → Option (List ℕ × List ℕ)
skipelem path = elim (skip_slashes path) [
  | [] ↦ none
  | c ∷ p ↦ let (s, rest) = scan_elem (c ∷ p) in some (take dirsiz s, skip_slashes rest)
]

-- The names that the loop of `namex` takes from a path, with fuel.
unfoldable pub names : ℕ → List ℕ → List (List ℕ)
names zero path = []
names (suc fuel) path = elim (skipelem path) [ none ↦ [] | some r ↦ r.0 ∷ names fuel r.1 ]

-- The parts of a path between its slashes.
unfoldable pub split : List ℕ → List (List ℕ)
split [] = [] ∷ []
split (c ∷ path) =
    if c == slash
    then [] ∷ split path
    else elim (split path) [ [] ↦ (c ∷ []) ∷ [] | part ∷ parts ↦ (c ∷ part) ∷ parts ]

unfoldable pub drop_empty : List (List ℕ) → List (List ℕ)
drop_empty [] = []
drop_empty ([] ∷ parts) = drop_empty parts
drop_empty ((c ∷ part) ∷ parts) = (c ∷ part) ∷ drop_empty parts

-- The parts that are not empty.
abbrev pub parts : List ℕ → List (List ℕ)
parts path = drop_empty (split path)

parts-slash : (path : List ℕ) → parts (slash ∷ path) ≡ parts path
unfolding split drop_empty
parts-slash path = refl

parts-nil : parts [] ≡ []
unfolding split drop_empty
parts-nil = refl

parts-skip_slashes : (path : List ℕ) → parts (skip_slashes path) ≡ parts path
unfolding skip_slashes
parts-skip_slashes [] = refl
parts-skip_slashes (c ∷ path) = elim (ℕ_discrete c slash) [
  | yes e ↦ rw e (parts-skip_slashes path ∙ sym (parts-slash path))
  | no ne ↦ let no_slash : (c == slash) ≡ false = ground (arith, ne) in rw no_slash refl
]

-- The parts behind the first one.
abbrev behind : List ℕ → List (List ℕ)
behind [] = []
behind (c ∷ rest) = split rest

split-scan_elem : (path : List ℕ) → split path ≡ (scan_elem path).0 ∷ behind (scan_elem path).1
unfolding split scan_elem
split-scan_elem [] = refl
split-scan_elem (c ∷ path) = elim (Bool-cases (c == slash)) [
  | inl e ↦ rw e refl
  | inr ne ↦ rw (ne, split-scan_elem path) refl
]

-- What is left begins with a slash, if it is not empty.
behind-parts : (path : List ℕ) → drop_empty (behind (scan_elem path).1) ≡ parts (scan_elem path).1
unfolding split scan_elem drop_empty
behind-parts [] = refl
behind-parts (c ∷ path) = elim (ℕ_discrete c slash) [
  | yes e ↦ rw e refl
  | no ne ↦
      let no_slash : (c == slash) ≡ false = ground (arith, ne) in rw no_slash (behind-parts path)
]

length-skip_slashes : (path : List ℕ) → length (skip_slashes path) ≤ length path
unfolding skip_slashes
length-skip_slashes [] = omega arith
length-skip_slashes (c ∷ path) = ground (arith, length-skip_slashes path)

length-scan_elem : (path : List ℕ) → length (scan_elem path).1 ≤ length path
unfolding scan_elem
length-scan_elem [] = omega arith
length-scan_elem (c ∷ path) = ground (arith, length-scan_elem path)

length-scan_elem_cons :
    (c : ℕ) (path : List ℕ) → c ≢ slash → length (scan_elem (c ∷ path)).1 ≤ length path
unfolding scan_elem
length-scan_elem_cons c path ne =
    let no_slash : (c == slash) ≡ false = ground (arith, ne) in rw no_slash (length-scan_elem path)

-- Behind the slashes: the first part, and the parts of the rest.
parts-scan_elem :
    (c : ℕ) (path : List ℕ)
    → c ≢ slash
    → parts (c ∷ path) ≡ (scan_elem (c ∷ path)).0 ∷ parts (scan_elem (c ∷ path)).1
unfolding scan_elem drop_empty
parts-scan_elem c path ne =
    let no_slash : (c == slash) ≡ false = ground (arith, ne) in
    ap drop_empty (split-scan_elem (c ∷ path))
    ∙ rw no_slash (ap (λ l. (c ∷ (scan_elem path).0) ∷ l) (behind-parts path))

-- What is left of the slashes does not begin with one.
skip_slashes-ne : (path : List ℕ) {c : ℕ} {p : List ℕ} → skip_slashes path ≡ c ∷ p → c ≢ slash
unfolding skip_slashes
skip_slashes-ne [] e = absurd cc
skip_slashes-ne (d ∷ path) {c} {p} e = elim (ℕ_discrete d slash) [
  | yes s ↦ skip_slashes-ne path {c = c} {p = p} (ground (arith, e, s))
  | no ne ↦ λ same.
      let e' : d ∷ path ≡ c ∷ p = ground (arith, e, ne) in let head : d ≡ c = cc in ne (head ∙ same)
]

cons_or_nil : (xs : List ℕ) → (xs ≡ []) ⊎ ((c : ℕ) × (p : List ℕ) × (xs ≡ c ∷ p))
cons_or_nil [] = inl refl
cons_or_nil (c ∷ p) = inr (c, p, refl)

skipelem-none : (path : List ℕ) → skip_slashes path ≡ [] → skipelem path ≡ none
unfolding skipelem
skipelem-none path e = rw (e, skipelem) refl

skipelem-some :
    (path : List ℕ) (c : ℕ) (p : List ℕ)
    → skip_slashes path ≡ c ∷ p
    → skipelem path ≡ some (take dirsiz (scan_elem (c ∷ p)).0, skip_slashes (scan_elem (c ∷ p)).1)
unfolding skipelem
skipelem-some path c p e = rw (e, skipelem) refl

-- With more fuel than the path has bytes, `skipelem` again and again gives the parts of the path
-- that are not empty, in their order, each cut to `DIRSIZ` bytes.
pub names-parts :
    (fuel : ℕ) (path : List ℕ)
    → length path < fuel
    → names fuel path ≡ map (take dirsiz) (parts path)
unfolding names
names-parts zero path lt = absurd (omega arith)
names-parts (suc fuel) path lt = elim (cons_or_nil (skip_slashes path)) [
  | inl e ↦
      rw (skipelem-none path e, names)
        (ap (map (take dirsiz)) (sym parts-nil ∙ sym (ap parts e) ∙ parts-skip_slashes path))
  | inr (c, p, e) ↦
      let ne : c ≢ slash = skip_slashes-ne path e in
      let rest = (scan_elem (c ∷ p)).1 in
      let first : parts path ≡ (scan_elem (c ∷ p)).0 ∷ parts rest =
        sym (parts-skip_slashes path) ∙ ap parts e ∙ parts-scan_elem c p ne in
      let len : length (c ∷ p) ≤ length path =
        subst (λ l. length l ≤ length path) e (length-skip_slashes path) in
      let short : length (skip_slashes rest) < fuel =
        omega (arith, len, length-scan_elem_cons c p ne, length-skip_slashes rest) in
      rw (skipelem-some path c p e, names)
        (ap (λ l. take dirsiz (scan_elem (c ∷ p)).0 ∷ l)
            (names-parts fuel (skip_slashes rest) short
              ∙ ap (map (take dirsiz)) (parts-skip_slashes rest))
          ∙ ap (map (take dirsiz)) (sym first))
]
