-- ===== src/Syscall.antt =====
-- syscall.c: the arguments of a system call, and its dispatch. The memory of the process is read by
-- byte; a result of -1 is `none`, and what is written through a pointer is in `some`.
pub mod Bounds
use os182_ass.Prelude.{
  ltb, leb, ◌==◌, if◌then◌else◌, ℕ, zero, suc, ◌+◌, ◌-◌, ◌*◌, ◌%◌, ◌^◌, ◌||◌, Option, none, some,
}
use os182_ass.Memory.{kernbase}

-- What syscall.c reads of a process: its memory, `sz` and `tf->esp`.
pub record User : Type 0 where
  pub mem : ℕ → ℕ
  pub sz : ℕ
  pub esp : ℕ

-- `*(int*)addr`
abbrev pub int_at : (ℕ → ℕ) → ℕ → ℕ
int_at mem addr =
    mem addr + 2 ^ 8 * mem (addr + 1) + 2 ^ 16 * mem (addr + 2) + 2 ^ 24 * mem (addr + 3)

unfoldable pub fetchint : User → ℕ → Option ℕ
fetchint p addr =
    if leb p.sz addr || ltb p.sz ((addr + 4) % 2 ^ 32) then none else some (int_at p.mem addr)

-- The loop of `fetchstr` with the bytes left up to `ep`; `s` is the pointer and `n` is `s - *pp`.
unfoldable pub fetch_loop : ℕ → ℕ → ℕ → (ℕ → ℕ) → Option ℕ
fetch_loop zero s n mem = none
fetch_loop (suc left) s n mem =
    let rest = fetch_loop left (suc s) (suc n) mem in if mem s == 0 then some n else rest

-- The length of the string.
unfoldable pub fetchstr : User → ℕ → Option ℕ
fetchstr p addr = if leb p.sz addr then none else fetch_loop (p.sz - addr) addr 0 p.mem

unfoldable pub argint : User → ℕ → Option ℕ
argint p n = fetchint p ((p.esp + 4 + 4 * n) % 2 ^ 32)

-- `size` is an int: from `2 ^ 31` on it is negative.
unfoldable pub argptr : User → ℕ → ℕ → Option ℕ
argptr p n size = elim (argint p n) [
  | none ↦ none
  | some i ↦
      if leb (2 ^ 31) size || leb p.sz i || ltb p.sz ((i + size) % 2 ^ 32) then none else some i
]

-- The address of the string and its length.
unfoldable pub argstr : User → ℕ → Option (ℕ × ℕ)
argstr p n = elim (argint p n) [
  | none ↦ none
  | some addr ↦ elim (fetchstr p addr) [ none ↦ none | some len ↦ some (addr, len) ]
]
