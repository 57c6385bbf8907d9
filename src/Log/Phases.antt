-- ===== src/Log/Phases.antt =====
-- The disk writes of each phase of a commit: to the log, to the header, to the home locations.
use os182_ass.Prelude.{
  length, All, ℕ, suc, ◌+◌, ◌≤◌, ◌<◌, ◌≡◌, refl, ◌∙◌, ◌⊎◌, List, [], ◌∷◌, arith,
}
use os182_ass.Disk.{
  Block, Blocks, Writes, Store, update, bread, bwrite, apply_writes, Does, Does-nothing,
  Does-bwrite, Does-append, update_self, update_ne,
}
use os182_ass.Log.{install_trans, write_log}

-- Block `a` is no block of the log, whose header is `start`.
abbrev pub Home : ℕ → ℕ → ℕ → Type 0
Home start size a = (a < start) ⊎ (start + size ≤ a)

module _ (start : ℕ) (t : Blocks) where
  -- The new contents `t` of the blocks, written to the log from position `tail` on.
  unfoldable pub log_writes : ℕ → List ℕ → Writes
  log_writes tail [] = []
  log_writes tail (b ∷ bs) = (start + tail + 1, t b) ∷ log_writes (suc tail) bs

  -- The same, written to their home locations.
  unfoldable pub home_writes : List ℕ → Writes
  home_writes [] = []
  home_writes (b ∷ bs) = (b, t b) ∷ home_writes bs

  -- The log holds the contents `t` of the blocks `bs` from position `tail` on.
  abbrev pub Logged : Blocks → ℕ → List ℕ → Type 0
  Logged f tail [] = Unit
  Logged f tail (b ∷ bs) = (f (start + tail + 1) ≡ t b) × Logged f (suc tail) bs

  module _ (size : ℕ) where
    Logged-update :
        (f : Blocks) (b : ℕ) (d : Block) (tail : ℕ) (bs : List ℕ)
        → Home start size b
        → tail + length bs < size
        → Logged f tail bs
        → Logged (update f b d) tail bs
    Logged-update f b d tail [] home room l = tt
    Logged-update f b d tail (x ∷ bs) home room l = (
      update_ne f b d (start + tail + 1) (omega arith) ∙ l.0,
      Logged-update f b d (suc tail) bs home (omega arith) l.1,
    )

    Fresh-update :
        (f : Blocks) (x : ℕ) (d : Block) (bs : List ℕ)
        → start ≤ x
        → x < start + size
        → All (Home start size) bs
        → All (λ b. f b ≡ t b) bs
        → All (λ b. update f x d b ≡ t b) bs
    Fresh-update f x d [] lo hi home same = tt
    Fresh-update f x d (b ∷ bs) lo hi home same = (
      update_ne f x d b (omega (arith, home.0)) ∙ same.0,
      Fresh-update f x d bs lo hi home.1 same.1,
    )

    -- `write_log` writes the cached contents of the blocks to the log.
    pub write_log-Does :
        (bs : List ℕ) (tail : ℕ) (s : Store)
        → tail + length bs < size
        → All (Home start size) bs
        → All (λ b. bread s b ≡ t b) bs
        → Does s (log_writes tail bs) (write_log start tail bs s)
    unfolding write_log log_writes apply_writes
    write_log-Does [] tail s room home same = Does-nothing s
    write_log-Does (b ∷ bs) tail s room home same = rw same.0 (
        Does-append first (
          write_log-Does bs (suc tail) s' (omega arith) home.1 (
            rw (first.view, apply_writes)
              (Fresh-update (bread s) (start + tail + 1) (t b) bs (omega arith) (omega arith) home.1
                same.1))))
      where
        s' : Store
        s' = bwrite (start + tail + 1) (t b) s

        first : Does s ((start + tail + 1, t b) ∷ []) s'
        first = Does-bwrite s (start + tail + 1) (t b)

    -- `install_trans` writes the logged contents to the home locations.
    pub install_trans-Does :
        (bs : List ℕ) (tail : ℕ) (s : Store)
        → tail + length bs < size
        → All (Home start size) bs
        → Logged (bread s) tail bs
        → Does s (home_writes bs) (install_trans start tail bs s)
    unfolding install_trans home_writes apply_writes
    install_trans-Does [] tail s room home l = Does-nothing s
    install_trans-Does (b ∷ bs) tail s room home l = rw l.0 (
        Does-append first (
          install_trans-Does bs (suc tail) s' (omega arith) home.1 (
            rw (first.view, apply_writes)
              (Logged-update (bread s) b (t b) (suc tail) bs home.0 (omega arith) l.1))))
      where
        s' : Store
        s' = bwrite b (t b) s

        first : Does s ((b, t b) ∷ []) s'
        first = Does-bwrite s b (t b)

    -- Blocks that are not behind position `tail` of the log keep their contents.
    pub log_writes-keep :
        (bs : List ℕ) (tail : ℕ) (f : Blocks) (a : ℕ)
        → tail + length bs < size
        → (a < start + tail + 1) ⊎ (start + size ≤ a)
        → apply_writes (log_writes tail bs) f a ≡ f a
    unfolding apply_writes log_writes
    log_writes-keep [] tail f a room out = refl
    log_writes-keep (b ∷ bs) tail f a room out =
        log_writes-keep bs (suc tail) (update f (start + tail + 1) (t b)) a (omega arith)
          (omega arith)
        ∙ update_ne f (start + tail + 1) (t b) a (omega arith)

    -- What the log writes leave in the log.
    pub Logged-log_writes :
        (bs : List ℕ) (tail : ℕ) (f : Blocks)
        → tail + length bs < size
        → Logged (apply_writes (log_writes tail bs) f) tail bs
    unfolding apply_writes log_writes
    Logged-log_writes [] tail f room = tt
    Logged-log_writes (b ∷ bs) tail f room = (
      log_writes-keep bs (suc tail) (update f (start + tail + 1) (t b)) (start + tail + 1)
            (omega arith) (omega arith)
          ∙ update_self f (start + tail + 1) (t b),
      Logged-log_writes bs (suc tail) (update f (start + tail + 1) (t b)) (omega arith),
    )

    -- The writes to the home locations keep the log and the header.
    pub home_writes-keep :
        (bs : List ℕ) (f : Blocks) (a : ℕ)
        → All (Home start size) bs
        → start ≤ a
        → a < start + size
        → apply_writes (home_writes bs) f a ≡ f a
    unfolding apply_writes home_writes
    home_writes-keep [] f a home lo hi = refl
    home_writes-keep (b ∷ bs) f a home lo hi =
        home_writes-keep bs (update f b (t b)) a home.1 lo hi
        ∙ update_ne f b (t b) a (omega (arith, home.0))
