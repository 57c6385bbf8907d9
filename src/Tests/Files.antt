-- ===== src/Tests/Files.antt =====
-- A small disk, a path name and a table of files.
use os182_ass.Prelude.{
  ◌==◌, if◌then◌else◌, take, ℕ, ◌<◌, ◌≡◌, ap, ◌⊎◌, true, ◌&&◌, List, [], ◌∷◌, map, arith,
}
use os182_ass.Prelude.Outcome.{ok, panic}
use os182_ass.Fs.{Superblock, Fs, balloc, bblock}
use os182_ass.Fs.Bitmap.{in_use, MapInUse, Allocates, balloc_lem}
use os182_ass.Fs.Names.{dirsiz, names, parts, names-parts}
use os182_ass.File.{Closing, fd_none, fd_pipe, FileTable, fileclose}
use os182_ass.File.Counts.{ClosedBy, handles, Counted, fileclose-Counted}

-- Eight blocks; the free map is block 4 and says that the blocks up to 4 are in use.
abbrev pub small_disk : Superblock
small_disk = record {
  size = 8;
  nblocks = 3;
  ninodes = 8;
  nlog = 2;
  logstart = 2;
  inodestart = 3;
  bmapstart = 4;
}

abbrev small_fs : Fs
small_fs = record { blocks = λ c o. if (c == 4) && (o == 0) then 31 else 7; logged = [] }

small_fs-MapInUse : MapInUse small_disk small_fs
small_fs-MapInUse c lt =
    let e : bblock c small_disk ≡ 4 = omega (arith, lt) in ap (in_use small_disk small_fs) e

balloc_lem_example :
    Allocates small_disk small_fs
    ⊎ (((c : ℕ) → c < 8 → in_use small_disk small_fs c ≡ true)
        × (balloc small_disk small_fs ≡ panic))
balloc_lem_example = balloc_lem small_disk small_fs small_fs-MapInUse

-- The path `/a//bc`.
abbrev some_path : List ℕ
some_path = 47 ∷ 97 ∷ 47 ∷ 47 ∷ 98 ∷ 99 ∷ []

names-parts_example : names 7 some_path ≡ map (take dirsiz) (parts some_path)
names-parts_example = names-parts 7 some_path (omega arith)

-- One open file in slot 0, a pipe with two handles.
abbrev two_handles : FileTable
two_handles i =
    if i == 0
    then record { kind = fd_pipe 3; ref = 2; readable = 1; writable = 0; off = 0 }
    else record { kind = fd_none; ref = 0; readable = 0; writable = 0; off = 0 }

two_handles-Counted : Counted two_handles (0 ∷ 0 ∷ [])
two_handles-Counted = record { refs = λ i lt. ground arith }

fileclose-Counted_example :
    (c : Closing) × (t' : FileTable) × (fileclose 0 two_handles ≡ ok (c, t'))
    × ClosedBy (two_handles 0) (handles 0 (0 ∷ [])) c
    × Counted t' (0 ∷ [])
    × (handles 0 (0 ∷ []) ≡ 0 → (t' 0).kind ≡ fd_none)
fileclose-Counted_example = fileclose-Counted 0 (0 ∷ []) two_handles-Counted (omega arith)
