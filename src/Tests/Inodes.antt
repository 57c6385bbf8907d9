-- ===== src/Tests/Inodes.antt =====
-- A file of 600 bytes in the blocks 10 and 11.
use os182_ass.Prelude.{
  ◌==◌, if◌then◌else◌, ℕ, ◌+◌, ◌-◌, ◌%◌, ◌≤◌, ◌<◌, min, ◌≡◌, ◌⊎◌, true, false, none, some, [],
  arith,
}
use os182_ass.Prelude.Outcome.{ok}
use os182_ass.Fs.Inode.{Inode, Transfer, readi, writei, iupdate, ilock}
use os182_ass.Fs.Inode.Content.{IsMapped, AreApart}
use os182_ass.Fs.Inode.Read.{Copied, readi_lem}
use os182_ass.Fs.Inode.Writei.{Wrote, writei_lem, readi-writei}
use os182_ass.Fs.Inode.OnDisk.{Fits, SameInode, ilock-iupdate}
use os182_ass.Tests.Files.{small_disk}

abbrev some_inode : Inode
some_inode = record {
  inum = 5;
  ref = 1;
  valid = true;
  kind = 2;
  major = 0;
  minor = 0;
  nlink = 1;
  size = 600;
  addrs = λ j. if j == 0 then 10 else if j == 1 then 11 else 0;
}

abbrev counting : Transfer
counting = record {
  mem = λ a. a % 256;
  ip = some_inode;
  fs = record { blocks = λ a o. a; logged = [] };
}

some_inode-IsMapped : IsMapped counting.ip counting.fs 2
some_inode-IsMapped = record {
  in_range = omega arith;
  there = λ b lt e. ground (arith, lt, e);
  indirect_there = λ more. absurd (omega (arith, more));
}

some_inode-AreApart : AreApart small_disk counting.ip counting.fs 2
some_inode-AreApart = record {
  different = λ b c lb lc e. ground (arith, lb, lc, e);
  not_indirect = λ b lb more. absurd (omega (arith, more));
  not_inode = λ b lb e. ground (arith, lb, e);
  indirect_not_inode = λ more. absurd (omega (arith, more));
}

readi_lem_example :
    ((600 < 500) × (readi small_disk 0 500 50 counting ≡ ok (none, counting)))
    ⊎ ((500 ≤ 600)
        × (m' : ℕ → ℕ) × (readi small_disk 0 500 50 counting
            ≡ ok (some (min 50 (600 - 500)), record counting { mem = m' }))
        × Copied some_inode counting.fs 0 500 (min 50 (600 - 500)) counting.mem m')
readi_lem_example =
    readi_lem small_disk 0 500 50 counting 2 some_inode-IsMapped (omega arith) (omega arith)

writei_lem_example :
    (s' : Transfer) × (writei small_disk 7 500 200 counting ≡ ok (some 200, s'))
    × Wrote small_disk 2 7 500 200 counting s'
writei_lem_example =
    writei_lem small_disk 7 500 200 counting 2 some_inode-IsMapped some_inode-AreApart (omega arith)
      (omega arith)

readi-writei_example :
    (s' : Transfer) × (s'' : Transfer) × (writei small_disk 7 500 200 counting ≡ ok (some 200, s'))
    × (readi small_disk 900 500 200 s' ≡ ok (some 200, s''))
    × ((j : ℕ) → j < 200 → s''.mem (900 + j) ≡ counting.mem (7 + j))
readi-writei_example =
    readi-writei small_disk 7 900 500 200 counting 2 some_inode-IsMapped some_inode-AreApart
      (omega arith) (omega arith) (omega arith)

some_inode-Fits : Fits some_inode
some_inode-Fits = record {
  kind = omega arith;
  major = omega arith;
  minor = omega arith;
  nlink = omega arith;
  size = omega arith;
  addrs = λ i le. ground (arith, le);
}

ilock-iupdate_example :
    (got : Inode) × (ilock small_disk
        (record some_inode { valid = false; ref = 3 })
        (iupdate small_disk some_inode counting.fs)
      ≡ ok got)
    × SameInode some_inode got
ilock-iupdate_example =
    ilock-iupdate small_disk some_inode 3 counting.fs some_inode-Fits (λ e. omega (arith, e))
      (omega arith)
