-- ===== src/File.antt =====
-- The table of open files of file.c. `ftable.lock` is held through each access to the table, so an
-- operation is one step. A file is named by its slot; the table is a function of the slot, of which
-- the slots below `NFILE` are in use.
pub mod Counts
use os182_ass.Prelude.{ltb, ◌==◌, if◌then◌else◌, ℕ, zero, suc, ◌+◌, ◌-◌, Option, none, some}
use os182_ass.Prelude.Outcome.{Outcome, ok, panic, ◌>>=◌, ◌>>◌, panic_if}

abbrev pub nfile : ℕ
nfile = 100

-- `type` of `struct file`; a pipe and an inode are named by numbers.
pub data FileKind : Type 0 where
  fd_none : FileKind
  fd_pipe fd_inode : ℕ → FileKind

-- `struct file`
pub record File : Type 0 where
  pub kind : FileKind
  pub ref : ℕ
  pub readable : ℕ
  pub writable : ℕ
  pub off : ℕ

abbrev pub FileTable : Type 0
FileTable = ℕ → File

unfoldable pub put_file : ℕ → File → FileTable → FileTable
put_file i f t j = if j == i then f else t j

-- The loop of `filealloc`, from slot `i` with the rounds left.
unfoldable pub find_file : ℕ → ℕ → FileTable → Option ℕ
find_file zero i t = none
find_file (suc rounds) i t =
    let rest = find_file rounds (suc i) t in if (t i).ref == 0 then some i else rest

unfoldable pub filealloc : FileTable → Option ℕ × FileTable
filealloc t = elim (find_file nfile 0 t) [
  | none ↦ (none, t)
  | some i ↦ (some i, put_file i (record (t i) { ref = 1 }) t)
]

unfoldable pub filedup : ℕ → FileTable → Outcome FileTable
filedup i t = do
  panic_if (ltb (t i).ref 1)
  ok (put_file i (record (t i) { ref = (t i).ref + 1 }) t)

-- What `fileclose` does behind the table: nothing, `pipeclose(pipe, writable)`, or `iput(ip)`.
pub data Closing : Type 0 where
  keeps_open : Closing
  closes_pipe : ℕ → ℕ → Closing
  puts_inode : ℕ → Closing
  closes_none : Closing

abbrev pub closing : File → Closing
closing f = elim f.kind [
  | fd_none ↦ closes_none
  | fd_pipe p ↦ closes_pipe p f.writable
  | fd_inode ip ↦ puts_inode ip
]

unfoldable pub fileclose : ℕ → FileTable → Outcome (Closing × FileTable)
fileclose i t = do
  panic_if (ltb (t i).ref 1)
  ok (
      if ltb 0 ((t i).ref - 1)
      then (keeps_open, put_file i (record (t i) { ref = (t i).ref - 1 }) t)
      else (closing (t i), put_file i (record (t i) { ref = 0; kind = fd_none }) t))
