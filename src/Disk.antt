-- ===== src/Disk.antt =====
-- The disk below the log (bio.c and ide.c as log.c uses them): each block is an array of words; the
-- cache holds the newest contents of a block; `bwrite` writes a block through to the disk. The state
-- remembers the writes to the disk in their order, so that a crash may fall between any two.
use mathlib.Core.Path.{fun_ext}
use mathlib.Core.List.{append_assoc, append-nil}
use os182_ass.Prelude.{
  ◌==◌, if◌then◌else◌, ==_self, ==_of_ne, ℕ, ◌≡◌, refl, sym, ◌≢◌, Option, none, some, List, [], ◌∷◌,
  ◌++◌, arith,
}

abbrev pub Block : Type 0
Block = List ℕ

abbrev pub Blocks : Type 0
Blocks = ℕ → Block

abbrev pub Writes : Type 0
Writes = List (ℕ × Block)

pub record Store : Type 0 where
  pub disk : Blocks
  pub cached : ℕ → Option Block
  pub trace : Writes

unfoldable pub update : Blocks → ℕ → Block → Blocks
update f x d a = if a == x then d else f a

-- What `bread(dev, a)` returns.
unfoldable pub bread : Store → ℕ → Block
bread s a = elim (s.cached a) [ none ↦ s.disk a | some d ↦ d ]

-- `bwrite` of a buffer of block `x` that holds `d`.
unfoldable pub bwrite : ℕ → Block → Store → Store
bwrite x d s = record {
  disk = update s.disk x d;
  cached = λ a. if a == x then some d else s.cached a;
  trace = s.trace ++ (x, d) ∷ [];
}

-- The machine after a crash: the disk, and an empty cache.
abbrev pub reboot : Blocks → Store
reboot disk = record { disk = disk; cached = λ a. none; trace = [] }

unfoldable pub apply_writes : Writes → Blocks → Blocks
apply_writes [] f = f
apply_writes ((x, d) ∷ ws) f = apply_writes ws (update f x d)

pub apply_writes-append :
    (us ws : Writes) (f : Blocks) → apply_writes (us ++ ws) f ≡ apply_writes ws (apply_writes us f)
unfolding apply_writes
apply_writes-append [] ws f = refl
apply_writes-append ((x, d) ∷ us) ws f = apply_writes-append us ws (update f x d)

pub update_self : (f : Blocks) (x : ℕ) (d : Block) → update f x d x ≡ d
unfolding update
update_self f x d = rw (==_self x)

pub update_ne : (f : Blocks) (x : ℕ) (d : Block) (a : ℕ) → a ≢ x → update f x d a ≡ f a
unfolding update
update_ne f x d a h = rw (==_of_ne a x h)

-- From `s` the writes `ws` lead to `t`.
pub record Does (s : Store) (ws : Writes) (t : Store) : Type 0 where
  pub disk : t.disk ≡ apply_writes ws s.disk
  pub view : bread t ≡ apply_writes ws (bread s)
  pub trace : t.trace ≡ s.trace ++ ws

pub Does-nothing : (s : Store) → Does s [] s
unfolding apply_writes
Does-nothing s = record { disk = refl; view = refl; trace = sym (append-nil s.trace) }

pub Does-bwrite : (s : Store) (x : ℕ) (d : Block) → Does s ((x, d) ∷ []) (bwrite x d s)
unfolding apply_writes bwrite bread update
Does-bwrite s x d = record { disk = refl; view = fun_ext (λ a. ground arith); trace = refl }

pub Does-append : {s t u : Store} {us ws : Writes} → Does s us t → Does t ws u → Does s (us ++ ws) u
Does-append {s} {us} {ws} p q = record {
  disk = rw (apply_writes-append us ws s.disk, q.disk, p.disk);
  view = rw (apply_writes-append us ws (bread s), q.view, p.view);
  trace = rw (q.trace, p.trace, append_assoc);
}

-- After a reboot the cache shows the disk.
pub bread-reboot : (disk : Blocks) → bread (reboot disk) ≡ disk
unfolding bread
bread-reboot disk = refl
