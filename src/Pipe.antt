-- ===== src/Pipe.antt =====
-- pipe.c: a pipe is a ring of bytes with two counters that wrap at 2^32. A call runs, under the
-- lock of the pipe, until it returns or sleeps; after a wakeup it goes on where it slept.
pub mod Ring
pub mod Calls
pub mod Order
use os182_ass.Prelude.{
  ◌==◌, if◌then◌else◌, get_or, set, ℕ, zero, suc, ◌+◌, ◌%◌, ◌^◌, Bool, not, ◌&&◌, ◌||◌, List, [],
  ◌∷◌,
}

abbrev pub pipesize : ℕ
pipesize = 512

-- `struct pipe` without its lock; `bytes` is its array `data`.
pub record Pipe : Type 0 where
  pub bytes : List ℕ
  pub nread : ℕ
  pub nwrite : ℕ
  pub readopen : ℕ
  pub writeopen : ℕ

-- What `pipealloc` makes of a page with the bytes `bytes`.
abbrev pub opened : List ℕ → Pipe
opened bytes = record { bytes = bytes; nread = 0; nwrite = 0; readopen = 1; writeopen = 1 }

-- The pipe, and whether its page is freed.
unfoldable pub pipeclose : ℕ → Pipe → Bool × Pipe
pipeclose writable p =
    let p' =
      if not (writable == 0) then record p { writeopen = 0 } else record p { readopen = 0 } in
    ((p'.readopen == 0) && (p'.writeopen == 0), p')

-- `p->data[p->nwrite++ % PIPESIZE] = b`
unfoldable pub put_byte : ℕ → Pipe → Pipe
put_byte b p = record p {
  bytes = set p.bytes (p.nwrite % pipesize) b;
  nwrite = (p.nwrite + 1) % 2 ^ 32;
}

-- Where a `pipewrite` stops: it returns `n`, returns -1, or sleeps with bytes left to write.
pub data WriteStop : Type 0 where
  wrote : Pipe → WriteStop
  write_failed : Pipe → WriteStop
  write_sleeps : List ℕ → Pipe → WriteStop

-- The loop of `pipewrite` over the bytes that are left.
unfoldable pub pipewrite : Bool → List ℕ → Pipe → WriteStop
pipewrite killed [] p = wrote p
pipewrite killed (b ∷ bs) p =
    let rest = pipewrite killed bs (put_byte b p) in
    if p.nwrite == (p.nread + pipesize) % 2 ^ 32
    then (if (p.readopen == 0) || killed then write_failed p else write_sleeps (b ∷ bs) p)
    else rest

-- `p->data[p->nread++ % PIPESIZE]`
unfoldable pub take_byte : Pipe → ℕ × Pipe
take_byte p = (get_or p.bytes (p.nread % pipesize) 0, record p { nread = (p.nread + 1) % 2 ^ 32 })

-- The copying loop of `piperead`, with the rounds left: the bytes it copies.
unfoldable pub read_loop : ℕ → Pipe → List ℕ × Pipe
read_loop zero p = ([], p)
read_loop (suc n) p =
    let (b, p') = take_byte p in
    let (bs, p'') = read_loop n p' in if p.nread == p.nwrite then ([], p) else (b ∷ bs, p'')

-- Where a `piperead` stops: it returns the number of the bytes that it copied, or -1, or sleeps.
pub data ReadStop : Type 0 where
  got : List ℕ → Pipe → ReadStop
  read_failed : Pipe → ReadStop
  read_sleeps : Pipe → ReadStop

unfoldable pub piperead : Bool → ℕ → Pipe → ReadStop
piperead killed n p =
    if (p.nread == p.nwrite) && not (p.writeopen == 0)
    then (if killed then read_failed p else read_sleeps p)
    else (let (bs, p') = read_loop n p in got bs p')
