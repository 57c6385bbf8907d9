-- ===== src/Log/Header.antt =====
-- The header block: what `write_head` writes, `read_head` reads.
use os182_ass.Prelude.{
  length, get_or, set, length-set, get_or-set_self, get_or-set_ne, ℕ, suc, ◌+◌, ◌≤◌, ◌<◌, ◌≡◌, refl,
  ap₂, ◌∙◌, List, [], ◌∷◌, arith,
}
use os182_ass.Disk.{Block}
use os182_ass.Log.{put_words, get_words}

length-put_words : (i : ℕ) (bs : List ℕ) (hb : Block) → length (put_words i bs hb) ≡ length hb
unfolding put_words
length-put_words i [] hb = refl
length-put_words i (b ∷ bs) hb = length-put_words (suc i) bs (set hb i b) ∙ length-set hb i b

-- Words before `i` stay as they are.
get_or-put_words :
    (i j : ℕ) (bs : List ℕ) (hb : Block) → j < i → get_or (put_words i bs hb) j 0 ≡ get_or hb j 0
unfolding put_words
get_or-put_words i j [] hb h = refl
get_or-put_words i j (b ∷ bs) hb h =
    get_or-put_words (suc i) j bs (set hb i b) (omega arith) ∙ get_or-set_ne hb b 0 (omega arith)

get_words-put_words :
    (i : ℕ) (bs : List ℕ) (hb : Block)
    → i + length bs ≤ length hb
    → get_words (length bs) i (put_words i bs hb) ≡ bs
unfolding put_words get_words
get_words-put_words i [] hb h = refl
get_words-put_words i (b ∷ bs) hb h =
    ap₂ ◌∷◌
      (get_or-put_words (suc i) i bs (set hb i b) (omega arith)
        ∙ get_or-set_self hb i b 0 (omega arith))
      (get_words-put_words (suc i) bs (set hb i b) (omega (arith, length-set hb i b)))

-- A header block with room for them gives back the block numbers that were put there.
pub head_round_trip :
    (bs : List ℕ) (hb : Block)
    → length bs < length hb
    → let h = put_words 1 bs (set hb 0 (length bs)) in get_words (get_or h 0 0) 1 h ≡ bs
head_round_trip bs hb h =
    rw
      (
        get_or-put_words 1 0 bs (set hb 0 (length bs)) (omega arith),
        get_or-set_self hb 0 (length bs) 0 (omega arith),
      )
      (get_words-put_words 1 bs (set hb 0 (length bs)) (omega (arith, length-set hb 0 (length bs))))

pub length-head :
    (bs : List ℕ) (hb : Block) → length (put_words 1 bs (set hb 0 (length bs))) ≡ length hb
length-head bs hb = length-put_words 1 bs (set hb 0 (length bs)) ∙ length-set hb 0 (length bs)
