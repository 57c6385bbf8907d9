-- ===== src/Tests/Pipes.antt =====
-- A pipe, new and with bytes.
use os182_ass.Prelude.{
  replicate, length-replicate, ℕ, ◌≡◌, refl, ap, ◌∙◌, false, List, [], ◌∷◌, ◌++◌, arith,
}
use os182_ass.Pipe.{
  pipesize, Pipe, opened, pipeclose, put_byte, take_byte, read_loop, wrote, write_sleeps, pipewrite,
  got, piperead,
}
use os182_ass.Pipe.Ring.{Holds, put_byte-Holds}
use os182_ass.Pipe.Calls.{opened-Holds, stopped, pipewrite-overflows}
use os182_ass.Pipe.Order.{
  System, Reach, here, next, write, read, close, IsFifo, Reach-IsFifo, piperead-after_sleep,
}

abbrev zeros : List ℕ
zeros = replicate pipesize 0

abbrev sevens : List ℕ
sevens = replicate pipesize 7

new-Holds : Holds (opened zeros) []
new-Holds = opened-Holds zeros (length-replicate {A = ℕ} pipesize 0)

one_byte-Holds : Holds (put_byte 5 (opened zeros)) (5 ∷ [])
one_byte-Holds = put_byte-Holds 5 [] new-Holds (omega arith)

-- The bytes 7 and 8 are written, one is read, and the writing end is closed.
abbrev written : Pipe
written = put_byte 8 (put_byte 7 (opened zeros))

abbrev one_read : Pipe
one_read = record written { nread = 1 }

abbrev shut : Pipe
shut = record one_read { writeopen = 0 }

write_run : pipewrite false (7 ∷ 8 ∷ []) (opened zeros) ≡ wrote written
unfolding pipewrite put_byte
write_run = refl

read_run : piperead false 1 written ≡ got (7 ∷ []) one_read
unfolding piperead read_loop take_byte put_byte
read_run = refl

close_run : pipeclose 1 one_read ≡ (false, shut)
unfolding pipeclose put_byte
close_run = refl

abbrev last_state : System
last_state = record { pipe = shut; sent = 7 ∷ 8 ∷ []; received = 7 ∷ [] }

calls : Reach zeros last_state
calls =
    next (next (next here (write false (7 ∷ 8 ∷ []) write_run)) (read false 1 (7 ∷ []) read_run))
      (close 1 close_run)

Reach-IsFifo_example : IsFifo last_state
Reach-IsFifo_example = Reach-IsFifo (length-replicate {A = ℕ} pipesize 0) calls

-- A writer of 513 bytes sleeps on a new pipe.
full_run :
    (p' : Pipe) × (pipewrite false (sevens ++ 8 ∷ []) (opened zeros) ≡ stopped false (8 ∷ []) p')
    × Holds p' sevens
    × (p' ≡ record (opened zeros) { bytes = p'.bytes; nwrite = p'.nwrite })
full_run = pipewrite-overflows false sevens 8 [] [] new-Holds (length-replicate {A = ℕ} pipesize 7)

stopped-sleeps : (p : Pipe) → p.readopen ≡ 1 → stopped false (8 ∷ []) p ≡ write_sleeps (8 ∷ []) p
stopped-sleeps p reader = ground (arith, reader)

piperead-after_sleep_example :
    (b : ℕ) × (others : List ℕ) × (p'' : Pipe) × (piperead false 4 full_run.0
      ≡ got (b ∷ others) p'')
piperead-after_sleep_example =
    piperead-after_sleep false false (sevens ++ 8 ∷ []) (8 ∷ []) 4 [] new-Holds
      (full_run.1 ∙ stopped-sleeps full_run.0 (ap (λ (q : Pipe). q.readopen) full_run.3))
      (omega arith)
