-- ===== src/Pipe/Ring.antt =====
-- The bytes in a pipe, oldest first, and what writing or reading one byte does to them.
use os182_ass.Prelude.{
  ◌==◌, length, get_or, set, length-append, length-set, get_or-set_self, get_or-set_ne, ℕ, ◌+◌, ◌%◌,
  ◌^◌, ◌≤◌, ◌<◌, ◌≡◌, refl, sym, ap, ◌∙◌, ◌≢◌, List, [], ◌∷◌, ◌++◌, arith,
}
use os182_ass.Pipe.{pipesize, Pipe, put_byte, take_byte}

-- The ring holds the bytes `xs` from position `n` on.
abbrev pub Stored : List ℕ → ℕ → List ℕ → Type 0
Stored bytes n [] = Unit
Stored bytes n (x ∷ xs) = (get_or bytes (n % pipesize) 0 ≡ x) × Stored bytes (n + 1) xs

-- The pipe holds the bytes `xs`.
pub record Holds (p : Pipe) (xs : List ℕ) : Type 0 where
  pub size : length p.bytes ≡ pipesize
  pub word : p.nread < 2 ^ 32
  pub room : length xs ≤ pipesize
  pub counted : p.nwrite ≡ (p.nread + length xs) % 2 ^ 32
  pub stored : Stored p.bytes p.nread xs

-- Only the position modulo the size of the ring matters.
Stored-mod :
    (bytes : List ℕ) (n m : ℕ) (xs : List ℕ)
    → n % pipesize ≡ m % pipesize
    → Stored bytes n xs
    → Stored bytes m xs
Stored-mod bytes n m [] e s = tt
Stored-mod bytes n m (x ∷ xs) e s = (
  ap (λ k. get_or bytes k 0) (sym e) ∙ s.0,
  Stored-mod bytes (n + 1) (m + 1) xs (omega arith) s.1,
)

-- A write behind the bytes leaves them alone.
Stored-set :
    (bytes : List ℕ) (n i b : ℕ) (xs : List ℕ)
    → ((k : ℕ) → k < length xs → i ≢ (n + k) % pipesize)
    → Stored bytes n xs
    → Stored (set bytes i b) n xs
Stored-set bytes n i b [] far s = tt
Stored-set bytes n i b (x ∷ xs) far s = (
  get_or-set_ne bytes b 0 (λ e. far 0 (omega arith) (omega (arith, e))) ∙ s.0,
  Stored-set bytes (n + 1) i b xs (λ k lt e. far (k + 1) (omega arith) (omega (arith, e))) s.1,
)

Stored-snoc :
    (bytes : List ℕ) (n b : ℕ) (xs : List ℕ)
    → get_or bytes ((n + length xs) % pipesize) 0 ≡ b
    → Stored bytes n xs
    → Stored bytes n (xs ++ b ∷ [])
Stored-snoc bytes n b [] e s = (ap (λ k. get_or bytes k 0) (omega arith) ∙ e, tt)
Stored-snoc bytes n b (x ∷ xs) e s =
    (s.0, Stored-snoc bytes (n + 1) b xs (ap (λ k. get_or bytes k 0) (omega arith) ∙ e) s.1)

module _ {p : Pipe} where
  -- The counters are equal just when the pipe is empty.
  pub empty_iff : (xs : List ℕ) → Holds p xs → (p.nread == p.nwrite) ≡ (length xs == 0)
  empty_iff xs h = ground (arith, h.counted, h.word, h.room)

  pub full_iff :
      (xs : List ℕ)
      → Holds p xs
      → (p.nwrite == (p.nread + pipesize) % 2 ^ 32) ≡ (length xs == pipesize)
  full_iff xs h = ground (arith, h.counted, h.word, h.room)

  pub put_byte-Holds :
      (b : ℕ) (xs : List ℕ)
      → Holds p xs
      → length xs < pipesize
      → Holds (put_byte b p) (xs ++ b ∷ [])
  unfolding put_byte
  put_byte-Holds b xs h lt = record {
    size = length-set p.bytes (p.nwrite % pipesize) b ∙ h.size;
    word = h.word;
    room = omega (arith, length-append xs (b ∷ []));
    counted = omega (arith, length-append xs (b ∷ []), h.counted);
    stored =
        Stored-snoc (set p.bytes (p.nwrite % pipesize) b) p.nread b xs
          (ap (λ k. get_or (set p.bytes (p.nwrite % pipesize) b) k 0) (omega (arith, h.counted))
            ∙ get_or-set_self p.bytes (p.nwrite % pipesize) b 0 (omega (arith, h.size)))
          (Stored-set p.bytes p.nread (p.nwrite % pipesize) b xs
            (λ k kl e. omega (arith, e, h.counted)) h.stored);
  }

  pub take_byte-Holds :
      (x : ℕ) (xs : List ℕ)
      → Holds p (x ∷ xs)
      → (p' : Pipe) × (take_byte p ≡ (x, p'))
        × (p' ≡ record p { nread = (p.nread + 1) % 2 ^ 32 })
        × Holds p' xs
  unfolding take_byte
  take_byte-Holds x xs h = (
    record p { nread = (p.nread + 1) % 2 ^ 32 },
    ap (λ b. (b, record p { nread = (p.nread + 1) % 2 ^ 32 })) h.stored.0,
    refl,
    record {
      size = h.size;
      word = omega arith;
      room = omega (arith, h.room);
      counted = omega (arith, h.counted);
      stored =
          Stored-mod p.bytes (p.nread + 1) ((p.nread + 1) % 2 ^ 32) xs (omega arith) h.stored.1;
    },
  )
