-- ===== src/Strings.antt =====
-- string.c: copies of bytes in memory. `m a` is the byte at address `a`; the regions do not run over
-- the end of the address space.
pub mod Move
pub mod Compare
pub mod Copy
pub mod Pad
use os182_ass.Prelude.{ltb, ◌==◌, if◌then◌else◌, ℕ, zero, suc, ◌+◌, ◌-◌, ◌&&◌}

abbrev pub Bytes : Type 0
Bytes = ℕ → ℕ

unfoldable pub put : Bytes → ℕ → ℕ → Bytes
put m x v a = if a == x then v else m a

-- `while(n-- > 0) *d++ = *s++`
unfoldable pub copy_up : ℕ → ℕ → ℕ → Bytes → Bytes
copy_up zero d s m = m
copy_up (suc n) d s m = copy_up n (d + 1) (s + 1) (put m d (m s))

-- `while(n-- > 0) *--d = *--s`
unfoldable pub copy_down : ℕ → ℕ → ℕ → Bytes → Bytes
copy_down zero d s m = m
copy_down (suc n) d s m = copy_down n (d - 1) (s - 1) (put m (d - 1) (m (s - 1)))

unfoldable pub memmove : ℕ → ℕ → ℕ → Bytes → Bytes
memmove dst src n m =
    if ltb src dst && ltb dst (src + n)
    then copy_down n (dst + n) (src + n) m
    else copy_up n dst src m

-- The second loop of `strncpy`.
unfoldable pub pad_loop : ℕ → ℕ → Bytes → Bytes
pad_loop zero s m = m
pad_loop (suc n) s m = pad_loop n (s + 1) (put m s 0)

-- Its first loop, which goes on to the second one behind a null byte. `n` is not negative.
unfoldable pub strncpy : ℕ → ℕ → ℕ → Bytes → Bytes
strncpy s t zero m = m
strncpy s t (suc n) m =
    let m' = put m s (m t) in
    let rest = strncpy (s + 1) (t + 1) n m' in if m t == 0 then pad_loop n (s + 1) m' else rest

-- The loop of `safestrcpy`, with the rounds left before `--n` is 0, and the null byte behind it.
unfoldable pub safe_loop : ℕ → ℕ → ℕ → Bytes → Bytes
safe_loop zero s t m = put m s 0
safe_loop (suc n) s t m =
    let m' = put m s (m t) in
    let rest = safe_loop n (s + 1) (t + 1) m' in if m t == 0 then put m' (s + 1) 0 else rest

-- `n <= 0` is 0 here.
unfoldable pub safestrcpy : ℕ → ℕ → ℕ → Bytes → Bytes
safestrcpy s t zero m = m
safestrcpy s t (suc n) m = safe_loop n s t m
