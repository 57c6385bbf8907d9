-- ===== src/Log/Crash/Commit.antt =====
-- `commit` does the writes of `Points`, so a crash at any of them loses nothing.

use os182_ass.Prelude.{
  leb, if◌then◌else◌, length, get_or, set, take, All, append-cons, get_or-set_self, ℕ, ◌<◌, ◌≡◌,
  refl, ap, ◌∙◌, List, [], ◌∷◌, ◌++◌, arith,
}
use os182_ass.Disk.{
  Block, Store, update, bread, reboot, apply_writes, apply_writes-append, Does, Does-bwrite,
  Does-append, update_self, update_ne,
}
use os182_ass.Log.{put_words, write_head, recover_from_log, install_trans, write_log, commit}
use os182_ass.Log.Header.{head_round_trip, length-head}
use os182_ass.Log.Phases.{
  Home, log_writes, home_writes, Logged, log_writes-keep, Logged-log_writes, home_writes-keep,
  write_log-Does, install_trans-Does,
}
use os182_ass.Log.Crash.{Heads}
use os182_ass.Log.Crash.Points.{
  Ready, commit_writes, crash_at, final-Home, final-start, Logged-same,
}

-- The header that `write_head` writes over the block `b`.
abbrev pub header : List ℕ → Block → Block
header bs b = put_words 1 bs (set b 0 (length bs))

write_head-Does :
    (start : ℕ) (bs : List ℕ) (s : Store) (b : Block)
    → bread s start ≡ b
    → Does s ((start, header bs b) ∷ []) (write_head start bs s)
unfolding write_head
write_head-Does start bs s b e = rw (← e) (Does-bwrite s start (header bs (bread s start)))

module _ {start size : ℕ} (bs : List ℕ) (s : Store) (r : Ready start size (bread s) bs s.disk) where
  abbrev h : Block
  h = header bs (bread s start)

  abbrev z : Block
  z = header [] h

  -- After the header is written the cache shows it, and the log behind it.
  module _ {s' : Store}
      (does : Does s (log_writes start (bread s) 0 bs ++ (start, h) ∷ []) s') where
    headed-view :
        bread s' ≡ update (apply_writes (log_writes start (bread s) 0 bs) (bread s)) start h
    unfolding apply_writes
    headed-view =
        does.view
        ∙ apply_writes-append (log_writes start (bread s) 0 bs) ((start, h) ∷ []) (bread s)

    headed-Logged : Logged start (bread s) (bread s') 0 bs
    headed-Logged = rw headed-view (
        Logged-same start (bread s) size (apply_writes (log_writes start (bread s) 0 bs) (bread s))
          _ 0 bs (omega (arith, r.room))
          (λ a lo hi.
            update_ne (apply_writes (log_writes start (bread s) 0 bs) (bread s)) start h a
              (omega arith))
          (Logged-log_writes start (bread s) size bs 0 (bread s) (omega (arith, r.room))))

  logged : Does s (log_writes start (bread s) 0 bs) (write_log start 0 bs s)
  logged = write_log-Does start (bread s) size bs 0 s (omega (arith, r.room)) r.homes (same bs)
    where
      same : (cs : List ℕ) → All (λ b. bread s b ≡ bread s b) cs
      same [] = tt
      same (c ∷ cs) = (refl, same cs)

  headed-Does :
      Does s
        (log_writes start (bread s) 0 bs ++ (start, h) ∷ [])
        (write_head start bs (write_log start 0 bs s))
  headed-Does = Does-append logged (
      write_head-Does start bs (write_log start 0 bs s) (bread s start) (
        rw logged.view (
          log_writes-keep start (bread s) size bs 0 (bread s) start (omega (arith, r.room))
            (omega arith))))

  installed-Does :
      Does
        (write_head start bs (write_log start 0 bs s))
        (home_writes start (bread s) bs)
        (install_trans start 0 bs (write_head start bs (write_log start 0 bs s)))
  installed-Does =
      install_trans-Does start (bread s) size bs 0 (write_head start bs (write_log start 0 bs s))
        (omega (arith, r.room)) r.homes (headed-Logged headed-Does)

  cleared-start :
      bread (install_trans start 0 bs (write_head start bs (write_log start 0 bs s))) start ≡ h
  cleared-start = rw installed-Does.view (
      home_writes-keep start (bread s) size bs
        (bread (write_head start bs (write_log start 0 bs s))) start r.homes (omega arith)
        (omega (arith, r.room))
      ∙ (rw (headed-view headed-Does)
          (update_self (apply_writes (log_writes start (bread s) 0 bs) (bread s)) start h)))

  all-Does : Does s (commit_writes start (bread s) bs h z) (
      write_head start [] (install_trans start 0 bs (write_head start bs (write_log start 0 bs s))))
  all-Does = rw regroup (
      Does-append headed-Does
        (Does-append installed-Does (write_head-Does start [] _ h cleared-start)))
    where
      regroup :
          commit_writes start (bread s) bs h z
          ≡ (log_writes start (bread s) 0 bs ++ (start, h) ∷ [])
            ++ (home_writes start (bread s) bs ++ (start, z) ∷ [])
      regroup =
          append-cons (log_writes start (bread s) 0 bs) (start, h)
            (home_writes start (bread s) bs ++ (start, z) ∷ [])

commit-Does :
    {start size : ℕ} (bs : List ℕ) (s : Store) (r : Ready start size (bread s) bs s.disk)
    → 0 < length bs
    → Does s (commit_writes start (bread s) bs (h bs s r) (z bs s r)) (commit start bs s)
unfolding commit
commit-Does [] s r pos = absurd (omega arith)
commit-Does (b ∷ bs) s r pos = all-Does (b ∷ bs) s r

module _ {start size : ℕ} (bs : List ℕ) (s : Store) (r : Ready start size (bread s) bs s.disk) where
  Heads-h : length bs < length (bread s start) → Heads (h bs s r) bs
  Heads-h wide = head_round_trip bs (bread s start) wide

  clear-z : length bs < length (bread s start) → get_or (z bs s r) 0 0 ≡ 0
  unfolding put_words
  clear-z wide = get_or-set_self (h bs s r) 0 0 0 (omega (arith, length-head bs (bread s start)))

  -- Take a transaction that is not empty, fits into the log and its header and changes no block of
  -- the log, on an empty log. Crash `commit` after any number `k` of its disk writes, and recover
  -- from the disk: each block outside the log has its old contents if at most the blocks of the log
  -- were written, and the contents that the transaction gave it in the cache otherwise.
  pub commit_crash :
      0 < length bs
      → length bs < length (bread s start)
      → s.trace ≡ []
      → (k a : ℕ) → Home start size a
      → (recover_from_log start
            (reboot (apply_writes (take k (commit start bs s).trace) s.disk))).disk
          a
        ≡ (if leb k (length bs) then s.disk a else bread s a)
  commit_crash pos wide fresh k a home =
      ap (λ ws. (recover_from_log start (reboot (apply_writes (take k ws) s.disk))).disk a)
        ((commit-Does bs s r pos).trace
          ∙ ap (λ ws. ws ++ commit_writes start (bread s) bs (h bs s r) (z bs s r)) fresh)
      ∙ crash_at r (h bs s r) (z bs s r) (Heads-h wide) (clear-z wide) k a home

  -- For such a transaction `commit` brings every block outside the log on the disk to its contents in the cache, and leaves
  -- a header that says that the log is empty.
  pub commit-installs :
      0 < length bs
      → length bs < length (bread s start)
      → ((a : ℕ) → Home start size a → (commit start bs s).disk a ≡ bread s a)
        × (get_or ((commit start bs s).disk start) 0 0 ≡ 0)
  commit-installs pos wide = (
    λ a home. rw (commit-Does bs s r pos).disk (final-Home r (h bs s r) (z bs s r) a home),
    rw (commit-Does bs s r pos).disk
        (ap (λ (b : Block). get_or b 0 0) (final-start r (h bs s r) (z bs s r)) ∙ clear-z wide),
  )
