-- ===== src/File/Counts.antt =====
-- The counts of references are the numbers of handles that processes hold.
use os182_ass.Prelude.{
  ◌==◌, if◌then◌else◌, Option-cases, ℕ, zero, suc, ◌+◌, ◌-◌, ◌<◌, ◌≡◌, refl, sym, ap, ◌∙◌, subst,
  ◌≢◌, inl, inr, none, some, List, [], ◌∷◌, arith, ℕ_discrete,
}
use os182_ass.Prelude.Outcome.{ok}
use os182_ass.File.{
  nfile, fd_none, fd_pipe, fd_inode, File, Closing, closes_pipe, puts_inode, closes_none, FileTable,
  put_file, find_file, filealloc, filedup, keeps_open, closing, fileclose,
}

-- How many of the handles are for slot `i`.
abbrev pub handles : ℕ → List ℕ → ℕ
handles i [] = 0
handles i (h ∷ hs) = (if h == i then 1 else 0) + handles i hs

pub record Counted (t : FileTable) (hs : List ℕ) : Type 0 where
  pub refs : (i : ℕ) → i < nfile → (t i).ref ≡ handles i hs

find_file-some :
    (rounds i : ℕ) (t : FileTable) {k : ℕ}
    → find_file rounds i t ≡ some k
    → (k < i + rounds) × ((t k).ref ≡ 0)
unfolding find_file
find_file-some zero i t e = cc
find_file-some (suc rounds) i t {k} e = elim (ℕ_discrete (t i).ref 0) [
  | yes free ↦
      let same : i ≡ k = ground (arith, e, free) in
      (omega (arith, same), ap (λ x. (t x).ref) (sym same) ∙ free)
  | no used ↦
      let (lt, free) = find_file-some rounds (suc i) t {k = k} (ground (arith, e, used)) in
      (omega (arith, lt), free)
]

filealloc-found :
    {t : FileTable} (hs : List ℕ) (i : ℕ)
    → Counted t hs
    → find_file nfile 0 t ≡ some i
    → (i < nfile) × (handles i hs ≡ 0) × Counted (filealloc t).1 (i ∷ hs)
unfolding put_file filealloc
filealloc-found {t} hs i c found =
    let (lt, free) = find_file-some nfile 0 t found in
    (
      omega (arith, lt),
      sym (c.refs i (omega (arith, lt))) ∙ free,
      rw (found, filealloc) (record { refs = λ j jl. ground (arith, c.refs j jl, free) }),
    )

-- `filealloc` gives a file that nobody had a handle of, and counts the new handle.
pub filealloc-Counted :
    {t : FileTable} (hs : List ℕ) (k : ℕ)
    → Counted t hs
    → (filealloc t).0 ≡ some k
    → (k < nfile) × (handles k hs ≡ 0) × Counted (filealloc t).1 (k ∷ hs)
unfolding filealloc
filealloc-Counted {t} hs k c e = elim (Option-cases (find_file nfile 0 t)) [
  | inl no_slot ↦ absurd (let h : none ≡ some k = sym (rw (no_slot, filealloc) refl) ∙ e in cc)
  | inr (i, found) ↦
      let slot : (filealloc t).0 ≡ some i = rw (found, filealloc) refl in
      let both : some i ≡ some k = sym slot ∙ e in
      let same : i ≡ k = cc in
      subst (λ x. (x < nfile) × (handles x hs ≡ 0) × Counted (filealloc t).1 (x ∷ hs)) same
        (filealloc-found hs i c found)
]

-- `filedup` of a file with a handle counts one more.
pub filedup-Counted :
    {t : FileTable} (hs : List ℕ) (i : ℕ)
    → Counted t hs
    → i < nfile
    → 0 < handles i hs
    → (t' : FileTable) × (filedup i t ≡ ok t') × Counted t' (i ∷ hs)
unfolding filedup put_file
filedup-Counted {t} hs i c lt pos =
    let n = c.refs i lt in
    (
      put_file i (record (t i) { ref = (t i).ref + 1 }) t,
      ground (arith, n),
      record { refs = λ j jl. ground (arith, c.refs j jl) },
    )

-- What closing the file `f` has to do when `others` handles of it are left.
pub record ClosedBy (f : File) (others : ℕ) (c : Closing) : Type 0 where
  pub shared : 0 < others → c ≡ keeps_open
  pub last_pipe : others ≡ 0 → (p : ℕ) → f.kind ≡ fd_pipe p → c ≡ closes_pipe p f.writable
  pub last_inode : others ≡ 0 → (ip : ℕ) → f.kind ≡ fd_inode ip → c ≡ puts_inode ip
  pub last_none : others ≡ 0 → f.kind ≡ fd_none → c ≡ closes_none

closing-ClosedBy : (f : File) → ClosedBy f 0 (closing f)
closing-ClosedBy f = record {
  shared = λ pos. absurd (omega (arith, pos));
  last_pipe = λ _ p e. rw (e) refl;
  last_inode = λ _ ip e. rw (e) refl;
  last_none = λ _ e. rw (e) refl;
}

keeps_open-ClosedBy : (f : File) (others : ℕ) → others ≢ 0 → ClosedBy f others keeps_open
keeps_open-ClosedBy f others more = record {
  shared = λ _. refl;
  last_pipe = λ none_left. absurd (more none_left);
  last_inode = λ none_left. absurd (more none_left);
  last_none = λ none_left. absurd (more none_left);
}

-- `fileclose` of a handle: while the file has other handles, nothing is closed. With the last one, the
-- end of its pipe is closed that the file was open for, or its inode is put back, and the slot is free.
pub fileclose-Counted :
    {t : FileTable} (i : ℕ) (hs : List ℕ)
    → Counted t (i ∷ hs)
    → i < nfile
    → (c : Closing) × (t' : FileTable) × (fileclose i t ≡ ok (c, t'))
      × ClosedBy (t i) (handles i hs) c
      × Counted t' hs
      × (handles i hs ≡ 0 → (t' i).kind ≡ fd_none)
unfolding fileclose put_file
fileclose-Counted {t} i hs c lt = elim (ℕ_discrete (handles i hs) 0) [
  | yes last ↦
      let n : (t i).ref ≡ 1 = ground (arith, c.refs i lt, last) in
      (
        closing (t i),
        put_file i (record (t i) { ref = 0; kind = fd_none }) t,
        ground (arith, n, last),
        subst (λ k. ClosedBy (t i) k (closing (t i))) (sym last) (closing-ClosedBy (t i)),
        record { refs = λ j jl. ground (arith, c.refs j jl, last) },
        λ _. ground arith,
      )
  | no more ↦
      let n : (t i).ref ≡ suc (handles i hs) = ground (arith, c.refs i lt) in
      (
        keeps_open,
        put_file i (record (t i) { ref = (t i).ref - 1 }) t,
        ground (arith, n, more),
        keeps_open-ClosedBy (t i) (handles i hs) more,
        record { refs = λ j jl. ground (arith, c.refs j jl, n) },
        λ last. absurd (more last),
      )
]
