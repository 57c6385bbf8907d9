-- ===== src/Memory.antt =====
-- Physical memory as the kernel sees it through its direct map (memlayout.h, mmu.h): a function
-- from the 32-bit kernel virtual address of each word to its value, and the address macros.
use os182_ass.Prelude.{
  ltb, leb, ◌==◌, if◌then◌else◌, ℕ, ◌+◌, ◌-◌, ◌*◌, ◌/◌, ◌%◌, ◌^◌, ◌≡◌, ◌≢◌, ◌&&◌, arith,
}

abbrev pub Mem : Type 0
Mem = ℕ → ℕ

abbrev pub pgsize : ℕ
pgsize = 4096

abbrev pub kernbase : ℕ
kernbase = 0x8000_0000

abbrev pub phystop : ℕ
phystop = 0x0E00_0000

-- `PGROUNDUP` and `PGROUNDDOWN`, on `uint`
abbrev pub pgroundup : ℕ → ℕ
pgroundup sz = (sz + pgsize - 1) % 2 ^ 32 / pgsize * pgsize

abbrev pub pgrounddown : ℕ → ℕ
pgrounddown a = a / pgsize * pgsize

-- `V2P` and `P2V`
abbrev pub v2p : ℕ → ℕ
v2p a = (a + 2 ^ 32 - kernbase) % 2 ^ 32

abbrev pub p2v : ℕ → ℕ
p2v a = (a + kernbase) % 2 ^ 32

-- The word at `p` set to `w`.
unfoldable pub write : Mem → ℕ → ℕ → Mem
write m p w a = if a == p then w else m a

-- `memset(v, c, PGSIZE)`, where `word` is four copies of the byte `c`.
unfoldable pub fill_page : Mem → ℕ → ℕ → Mem
fill_page m v word a = if leb v a && ltb a (v + pgsize) then word else m a

pub write_self : (m : Mem) (p w : ℕ) → write m p w p ≡ w
unfolding write
write_self m p w = ground arith

pub write_ne : (m : Mem) (p w a : ℕ) → a ≢ p → write m p w a ≡ m a
unfolding write
write_ne m p w a h = ground arith
