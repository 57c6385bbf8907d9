-- ===== src/Log/Crash/Points.antt =====
-- The point of a commit: the crash loses the transaction up to the write of the header, and keeps
-- all of it from there on.
use mathlib.Core.List.{append-nil}
use os182_ass.Prelude.{
  leb, if◌then◌else◌, le→leb, lt→leb, Bool-cases, length, get_or, take, All, length-append,
  take-append, take-all, length-take, All-take, ℕ, zero, suc, ◌+◌, ◌-◌, ◌≤◌, ◌<◌, ◌≡◌, refl, ap,
  ap₂, ◌∙◌, ◌⊎◌, inl, inr, true, false, List, [], ◌∷◌, ◌++◌, arith, dec_lt,
}
use os182_ass.Disk.{
  Block, Blocks, Writes, update, reboot, apply_writes, apply_writes-append, update_self, update_ne,
}
use os182_ass.Log.{recover_from_log}
use os182_ass.Log.Phases.{
  Home, log_writes, home_writes, Logged, log_writes-keep, Logged-log_writes, home_writes-keep,
}
use os182_ass.Log.Crash.{
  mem, Heads, home_writes-reach, home_writes-some, recover-empty, recover-Logged,
}

module _ (start : ℕ) (t : Blocks) where
  take-log_writes :
      (k tail : ℕ) (bs : List ℕ)
      → take k (log_writes start t tail bs) ≡ log_writes start t tail (take k bs)
  unfolding log_writes
  take-log_writes zero tail bs = refl
  take-log_writes (suc k) tail [] = refl
  take-log_writes (suc k) tail (b ∷ bs) =
      ap (λ l. (start + tail + 1, t b) ∷ l) (take-log_writes k (suc tail) bs)

  take-home_writes :
      (k : ℕ) (bs : List ℕ) → take k (home_writes start t bs) ≡ home_writes start t (take k bs)
  unfolding home_writes
  take-home_writes zero bs = refl
  take-home_writes (suc k) [] = refl
  take-home_writes (suc k) (b ∷ bs) = ap (λ l. (b, t b) ∷ l) (take-home_writes k bs)

  length-log_writes : (tail : ℕ) (bs : List ℕ) → length (log_writes start t tail bs) ≡ length bs
  unfolding log_writes
  length-log_writes tail [] = refl
  length-log_writes tail (b ∷ bs) = ap suc (length-log_writes (suc tail) bs)

  length-home_writes : (bs : List ℕ) → length (home_writes start t bs) ≡ length bs
  unfolding home_writes
  length-home_writes [] = refl
  length-home_writes (b ∷ bs) = ap suc (length-home_writes bs)

  -- The writes of a commit, where `h` is the header that commits and `z` the one that clears.
  abbrev pub commit_writes : List ℕ → Block → Block → Writes
  commit_writes bs h z =
      log_writes start t 0 bs ++ (start, h) ∷ (home_writes start t bs ++ (start, z) ∷ [])

pub Logged-same :
    (start : ℕ) (t : Blocks) (size : ℕ) (g g' : Blocks) (tail : ℕ) (cs : List ℕ)
    → tail + length cs < size
    → ((a : ℕ) → start < a → a < start + size → g' a ≡ g a)
    → Logged start t g tail cs
    → Logged start t g' tail cs
Logged-same start t size g g' tail [] room same l = tt
Logged-same start t size g g' tail (c ∷ cs) room same l = (
  same (start + tail + 1) (omega arith) (omega arith) ∙ l.0,
  Logged-same start t size g g' (suc tail) cs (omega arith) same l.1,
)

-- What a transaction needs: its blocks lie outside the log and fit it, the header is clear, and a
-- block that is not of the transaction is on the disk as in the cache.
pub record Ready (start size : ℕ) (t : Blocks) (bs : List ℕ) (f : Blocks) : Type 0 where
  pub room : length bs < size
  pub homes : All (Home start size) bs
  pub clear : get_or (f start) 0 0 ≡ 0
  pub coherent : (a : ℕ) → Home start size a → mem a bs ≡ false → f a ≡ t a

module _ {start size : ℕ} {t : Blocks} {bs : List ℕ} {f : Blocks} (r : Ready start size t bs f)
    (h z : Block) where
  abbrev pub crashed : ℕ → Blocks
  crashed k = apply_writes (take k (commit_writes start t bs h z)) f

  abbrev recovered : Blocks → Blocks
  recovered d = (recover_from_log start (reboot d)).disk

  reach : (a : ℕ) → Home start size a → (mem a bs ≡ true) ⊎ (f a ≡ t a)
  reach a home = elim (Bool-cases (mem a bs)) [
    | inl m ↦ inl m
    | inr out ↦ inr (r.coherent a home out)
  ]

  -- Before the header is written.
  early :
      (cs : List ℕ) (a : ℕ)
      → length cs < size
      → Home start size a
      → recovered (apply_writes (log_writes start t 0 cs) f) a ≡ f a
  early cs a room home =
      recover-empty start size t (apply_writes (log_writes start t 0 cs) f) a
        (ap (λ (b : Block). get_or b 0 0)
            (log_writes-keep start t size cs 0 f start (omega arith) (omega arith))
          ∙ r.clear)
        (omega arith) home
      ∙ log_writes-keep start t size cs 0 f a (omega arith) (omega arith)

  crash-early : (k a : ℕ) → k ≤ length bs → Home start size a → recovered (crashed k) a ≡ f a
  crash-early k a le home =
      ap (λ ws. recovered (apply_writes ws f) a) prefix
      ∙ early (take k bs) a (omega (arith, length-take k bs le, r.room)) home
    where
      rest : Writes
      rest = (start, h) ∷ (home_writes start t bs ++ (start, z) ∷ [])

      none_of : take (k - length (log_writes start t 0 bs)) rest ≡ []
      none_of =
          let e : k - length (log_writes start t 0 bs) ≡ 0 =
            omega (arith, length-log_writes start t 0 bs) in
          ap (λ n. take n rest) e

      prefix : take k (commit_writes start t bs h z) ≡ log_writes start t 0 (take k bs)
      prefix =
          take-append k (log_writes start t 0 bs) rest
          ∙ ap₂ ◌++◌ (take-log_writes start t k 0 bs) none_of
          ∙ append-nil (log_writes start t 0 (take k bs))

  -- The disk once the header is written.
  headed : Blocks
  headed = update (apply_writes (log_writes start t 0 bs) f) start h

  headed-Home : (a : ℕ) → Home start size a → headed a ≡ f a
  unfolding headed
  headed-Home a home =
      update_ne (apply_writes (log_writes start t 0 bs) f) start h a (omega (arith, r.room))
      ∙ log_writes-keep start t size bs 0 f a (omega (arith, r.room)) (omega arith)

  headed-start : headed start ≡ h
  unfolding headed
  headed-start = update_self (apply_writes (log_writes start t 0 bs) f) start h

  Logged-headed : Logged start t headed 0 bs
  unfolding headed
  Logged-headed =
      Logged-same start t size (apply_writes (log_writes start t 0 bs) f) headed 0 bs
        (omega (arith, r.room))
        (λ a lo hi. update_ne (apply_writes (log_writes start t 0 bs) f) start h a (omega arith))
        (Logged-log_writes start t size bs 0 f (omega (arith, r.room)))

  -- While the blocks are installed.
  middle :
      Heads h bs
      → (cs : List ℕ) (a : ℕ) → All (Home start size) cs
      → Home start size a
      → recovered (apply_writes (home_writes start t cs) headed) a ≡ t a
  middle heads cs a homes home =
      recover-Logged start size t bs (apply_writes (home_writes start t cs) headed) a
        (rw
          (
            home_writes-keep start t size cs headed start homes (omega arith)
                (omega (arith, r.room)),
            headed-start,
          )
          heads)
        (Logged-same start t size headed (apply_writes (home_writes start t cs) headed) 0 bs
          (omega (arith, r.room))
          (λ b lo hi. home_writes-keep start t size cs headed b homes (omega arith) hi)
          Logged-headed)
        r.room r.homes home
        (home_writes-some start size t cs bs headed a (headed-reach (reach a home)))
    where
      headed-reach : (mem a bs ≡ true) ⊎ (f a ≡ t a) → (mem a bs ≡ true) ⊎ (headed a ≡ t a)
      headed-reach (inl m) = inl m
      headed-reach (inr e) = inr (headed-Home a home ∙ e)

  -- Once the header is cleared.
  late :
      get_or z 0 0 ≡ 0
      → (a : ℕ) → Home start size a
      → recovered (update (apply_writes (home_writes start t bs) headed) start z) a ≡ t a
  late cleared a home =
      recover-empty start size t (update (apply_writes (home_writes start t bs) headed) start z) a
        (ap (λ (b : Block). get_or b 0 0)
            (update_self (apply_writes (home_writes start t bs) headed) start z)
          ∙ cleared)
        (omega (arith, r.room)) home
      ∙ update_ne (apply_writes (home_writes start t bs) headed) start z a (omega (arith, r.room))
      ∙ home_writes-reach start size t bs headed a (headed-reach (reach a home))
    where
      headed-reach : (mem a bs ≡ true) ⊎ (f a ≡ t a) → (mem a bs ≡ true) ⊎ (headed a ≡ t a)
      headed-reach (inl m) = inl m
      headed-reach (inr e) = inr (headed-Home a home ∙ e)

  -- The disk after the header and `j` more writes.
  crashed-headed :
      (j : ℕ)
      → crashed (suc (length bs + j))
        ≡ apply_writes (take j (home_writes start t bs ++ (start, z) ∷ [])) headed
  unfolding headed apply_writes
  crashed-headed j =
      ap (λ ws. apply_writes ws f) prefix
      ∙ apply_writes-append (log_writes start t 0 bs) ((start, h) ∷ take j rest) f
    where
      rest : Writes
      rest = home_writes start t bs ++ (start, z) ∷ []

      prefix :
          take (suc (length bs + j)) (commit_writes start t bs h z)
          ≡ log_writes start t 0 bs ++ (start, h) ∷ take j rest
      prefix =
          let e : suc (length bs + j) - length (log_writes start t 0 bs) ≡ suc j =
            omega (arith, length-log_writes start t 0 bs) in
          take-append (suc (length bs + j)) (log_writes start t 0 bs) ((start, h) ∷ rest)
          ∙ ap₂ ◌++◌
              (take-all (suc (length bs + j)) (log_writes start t 0 bs)
                (omega (arith, length-log_writes start t 0 bs)))
              (ap (λ n. take n ((start, h) ∷ rest)) e)

  crash-installing :
      Heads h bs
      → (j a : ℕ) → j ≤ length bs
      → Home start size a
      → recovered (crashed (suc (length bs + j))) a ≡ t a
  crash-installing heads j a le home =
      ap (λ d. recovered d a) (crashed-headed j ∙ ap (λ ws. apply_writes ws headed) prefix)
      ∙ middle heads (take j bs) a (All-take (Home start size) j bs r.homes) home
    where
      last : Writes
      last = (start, z) ∷ []

      none_of : take (j - length (home_writes start t bs)) last ≡ []
      none_of =
          let e : j - length (home_writes start t bs) ≡ 0 =
            omega (arith, length-home_writes start t bs) in
          ap (λ n. take n last) e

      prefix : take j (home_writes start t bs ++ (start, z) ∷ []) ≡ home_writes start t (take j bs)
      prefix =
          take-append j (home_writes start t bs) last
          ∙ ap₂ ◌++◌ (take-home_writes start t j bs) none_of
          ∙ append-nil (home_writes start t (take j bs))

  crash-cleared :
      get_or z 0 0 ≡ 0
      → (j a : ℕ) → length bs < j
      → Home start size a
      → recovered (crashed (suc (length bs + j))) a ≡ t a
  unfolding apply_writes
  crash-cleared cleared j a lt home =
      ap (λ d. recovered d a)
        (crashed-headed j
          ∙ ap (λ ws. apply_writes ws headed)
              (take-all j all (
                omega (
                  arith,
                  length-append (home_writes start t bs) ((start, z) ∷ []),
                  length-home_writes start t bs,
                )))
          ∙ apply_writes-append (home_writes start t bs) ((start, z) ∷ []) headed)
      ∙ late cleared a home
    where
      all : Writes
      all = home_writes start t bs ++ (start, z) ∷ []

  -- A crash after `k` of the writes, and the recovery: the old contents while `k` is at most the
  -- number of blocks, the new ones from the header's write on.
  pub crash_at :
      Heads h bs
      → get_or z 0 0 ≡ 0
      → (k a : ℕ) → Home start size a
      → recovered (crashed k) a ≡ (if leb k (length bs) then f a else t a)
  crash_at heads cleared k a home = elim (dec_lt (length bs) k) [
    | no le ↦ rw (le→leb k (length bs) (omega arith)) (crash-early k a (omega arith) home)
    | yes lt ↦ rw (lt→leb (length bs) k lt) (elim (dec_lt (length bs) (k - suc (length bs))) [
      | yes all ↦
          ap (λ n. recovered (crashed n) a) (shift lt)
          ∙ crash-cleared cleared (k - suc (length bs)) a all home
      | no some_of ↦
          ap (λ n. recovered (crashed n) a) (shift lt)
          ∙ crash-installing heads (k - suc (length bs)) a (omega arith) home
    ])
  ]
    where
      shift : length bs < k → k ≡ suc (length bs + (k - suc (length bs)))
      shift lt = omega arith

  -- The disk after all of the writes.
  final :
      apply_writes (commit_writes start t bs h z) f
      ≡ update (apply_writes (home_writes start t bs) headed) start z
  unfolding apply_writes headed
  final =
      apply_writes-append (log_writes start t 0 bs)
        ((start, h) ∷ (home_writes start t bs ++ (start, z) ∷ [])) f
      ∙ apply_writes-append (home_writes start t bs) ((start, z) ∷ []) headed

  pub final-Home :
      (a : ℕ) → Home start size a → apply_writes (commit_writes start t bs h z) f a ≡ t a
  final-Home a home =
      ap (λ d. d a) final
      ∙ update_ne (apply_writes (home_writes start t bs) headed) start z a (omega (arith, r.room))
      ∙ home_writes-reach start size t bs headed a (headed-reach (reach a home))
    where
      headed-reach : (mem a bs ≡ true) ⊎ (f a ≡ t a) → (mem a bs ≡ true) ⊎ (headed a ≡ t a)
      headed-reach (inl m) = inl m
      headed-reach (inr e) = inr (headed-Home a home ∙ e)

  pub final-start : apply_writes (commit_writes start t bs h z) f start ≡ z
  final-start =
      ap (λ d. d start) final ∙ update_self (apply_writes (home_writes start t bs) headed) start z
