-- ===== src/Log/Crash.antt =====
-- A crash between any two disk writes of a commit, and the recovery that follows it.
pub mod Points
pub mod Commit
use os182_ass.Prelude.{
  ◌==◌, length, get_or, All, ℕ, ◌<◌, ◌≡◌, ◌∙◌, ◌≢◌, ◌⊎◌, inl, inr, Bool, true, false, ◌||◌, List,
  [], ◌∷◌, arith, ℕ_discrete,
}
use os182_ass.Disk.{
  Block, Blocks, Writes, Store, update, bread, bwrite, reboot, apply_writes, apply_writes-append,
  bread-reboot, Does, Does-bwrite, Does-append, update_self, update_ne,
}
use os182_ass.Log.{
  put_words, get_words, write_head, read_head, install_trans, write_log, recover_from_log, commit,
}
use os182_ass.Log.Header.{head_round_trip}
use os182_ass.Log.Phases.{Home, log_writes, home_writes, Logged, install_trans-Does}

abbrev pub mem : ℕ → List ℕ → Bool
mem a [] = false
mem a (x ∷ xs) = (a == x) || mem a xs

-- The header block says that the log holds the blocks `bs`.
abbrev pub Heads : Block → List ℕ → Type 0
Heads h bs = get_words (get_or h 0 0) 1 h ≡ bs

module _ (start size : ℕ) (t : Blocks) where
  -- Writing the new contents of `bs` to their home locations gives each block its new contents, if
  -- it is one of `bs` or had them.
  pub home_writes-reach :
      (bs : List ℕ) (f : Blocks) (a : ℕ)
      → (mem a bs ≡ true) ⊎ (f a ≡ t a)
      → apply_writes (home_writes start t bs) f a ≡ t a
  unfolding apply_writes home_writes
  home_writes-reach [] f a (inl h) = cc
  home_writes-reach [] f a (inr h) = h
  home_writes-reach (b ∷ bs) f a h = elim (ℕ_discrete a b) [
    | yes e ↦ home_writes-reach bs (update f b (t b)) a (inr (rw e (update_self f b (t b))))
    | no ne ↦ home_writes-reach bs (update f b (t b)) a (later ne h)
  ]
    where
      later :
          a ≢ b
          → (mem a (b ∷ bs) ≡ true) ⊎ (f a ≡ t a)
          → (mem a bs ≡ true) ⊎ (update f b (t b) a ≡ t a)
      later ne (inl m) = inl (ground arith)
      later ne (inr e) = inr (update_ne f b (t b) a ne ∙ e)

  -- Some of these writes do no harm.
  pub home_writes-some :
      (cs bs : List ℕ) (f : Blocks) (a : ℕ)
      → (mem a bs ≡ true) ⊎ (f a ≡ t a)
      → (mem a bs ≡ true) ⊎ (apply_writes (home_writes start t cs) f a ≡ t a)
  home_writes-some cs bs f a (inl m) = inl m
  home_writes-some cs bs f a (inr e) = inr (home_writes-reach cs f a (inr e))

  read_head-Heads :
      (bs : List ℕ) (d : Blocks) → Heads (d start) bs → read_head start (reboot d) ≡ bs
  unfolding read_head bread
  read_head-Heads bs d h = h

  empty-Heads : (h : Block) → get_or h 0 0 ≡ 0 → Heads h []
  unfolding get_words
  empty-Heads h e = rw e

  -- Recovery from an empty log keeps every block outside the log.
  pub recover-empty :
      (d : Blocks) (a : ℕ)
      → get_or (d start) 0 0 ≡ 0
      → 0 < size
      → Home start size a
      → (recover_from_log start (reboot d)).disk a ≡ d a
  unfolding recover_from_log install_trans write_head bwrite
  recover-empty d a h pos home =
      rw (read_head-Heads [] d (empty-Heads (d start) h)) (update_ne d start _ a (omega arith))

  -- Recovery from a log that holds the blocks `bs` installs them.
  pub recover-Logged :
      (bs : List ℕ) (d : Blocks) (a : ℕ)
      → Heads (d start) bs
      → Logged start t d 0 bs
      → length bs < size
      → All (Home start size) bs
      → Home start size a
      → (mem a bs ≡ true) ⊎ (d a ≡ t a)
      → (recover_from_log start (reboot d)).disk a ≡ t a
  unfolding recover_from_log write_head bwrite
  recover-Logged bs d a heads logged room homes home reach = rw (read_head-Heads bs d heads) (
      update_ne (install_trans start 0 bs (reboot d)).disk start _ a (omega arith)
      ∙ installed (
          install_trans-Does start t size bs 0 (reboot d) (omega arith) homes
            (rw (bread-reboot d) logged)))
    where
      installed :
          Does (reboot d) (home_writes start t bs) (install_trans start 0 bs (reboot d))
          → (install_trans start 0 bs (reboot d)).disk a ≡ t a
      installed does = rw does.disk (home_writes-reach bs d a reach)
