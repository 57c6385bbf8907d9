-- ===== src/Shell/Total.antt =====
-- The parser ends on every line, and what it returns is well formed.
use os182_ass.Prelude.{
  length, ℕ, zero, suc, ◌+◌, ◌*◌, ◌<◌, ◌≡◌, refl, ◌⊎◌, inl, inr, List, [], ◌∷◌, ◌++◌, arith,
}
use os182_ass.Shell.{
  skip_space, gettoken, peek, Cmd, execcmd, Parsed, parsed, rejected, parseline, parsepipe,
  parseexec, parseblock, parsecmd_loop,
}
use os182_ass.Shell.Tokens.{length-skip_space, peek-true}
use os182_ass.Shell.Ends.{
  Ends, accepts, rejects, Ends-bind, Ends-if, IsCmd, IsCmd-redirected, AreFiles-append,
  parseredirs-Ends, parseargs-Ends, parseback-Ends,
}

-- Each function ends when it has four units of fuel for each byte, and some more.
abbrev Serves : ℕ → ℕ → (ℕ → List ℕ → Parsed Cmd) → Type 0
Serves fuel more parse =
    (s : List ℕ) → 4 * length s + more < fuel → Ends IsCmd (length s) (parse fuel s)

record Serve (fuel : ℕ) : Type 0 where
  pub block : Serves fuel 0 parseblock
  pub exec : Serves fuel 1 parseexec
  pub pipe : Serves fuel 2 parsepipe
  pub line : Serves fuel 3 parseline

module _ (fuel : ℕ) (ih : Serve fuel) where
  parseblock-Serves : Serves (suc fuel) 0 parseblock
  unfolding parseblock
  parseblock-Serves s lt =
      Ends-if (peek (40 ∷ []) s)
        (λ open_tok.
          let first = peek-true (40 ∷ []) s open_tok in
          Ends-bind _ (ih.line (gettoken s).left (omega (arith, lt, first))) (λ cmd s1 c le1.
            Ends-if (peek (41 ∷ []) s1)
              (λ close_tok.
                let next = peek-true (41 ∷ []) s1 close_tok in
                Ends-bind _
                  (parseredirs-Ends fuel (gettoken s1).left (omega (arith, lt, first, le1, next)))
                  (λ redirs s2 files le2.
                    accepts (IsCmd-redirected cmd redirs c files)
                      (omega (arith, first, le1, next, le2))))
              (λ missing. rejects)))
        (λ no_tok. rejects)

  parseexec-Serves : Serves (suc fuel) 1 parseexec
  unfolding parseexec
  parseexec-Serves s lt =
      Ends-if (peek (40 ∷ []) s) (λ open_tok. ih.block s (omega (arith, lt)))
        (λ simple. Ends-bind _ (parseredirs-Ends fuel s (omega (arith, lt))) (λ before s1 files le1.
          Ends-bind _ (parseargs-Ends fuel 0 s1 (omega (arith, lt, le1)) (omega arith))
            (λ args s2 a le2.
              accepts
                (IsCmd-redirected (execcmd args.0) (before ++ args.1) (omega (arith, a.0), a.1)
                  (AreFiles-append before args.1 files a.2))
                (omega (arith, le1, le2)))))

  parsepipe-Serves : Serves (suc fuel) 2 parsepipe
  unfolding parsepipe
  parsepipe-Serves s lt = Ends-bind _ (ih.exec s (omega (arith, lt))) (λ cmd s1 c le1.
      Ends-if (peek (124 ∷ []) s1)
        (λ bar.
          let next = peek-true (124 ∷ []) s1 bar in
          Ends-bind _ (ih.pipe (gettoken s1).left (omega (arith, lt, le1, next)))
            (λ right s2 r le2. accepts (c, r) (omega (arith, le1, next, le2))))
        (λ stop. accepts c (omega (arith, le1, length-skip_space s1))))

  parseline-Serves : Serves (suc fuel) 3 parseline
  unfolding parseline
  parseline-Serves s lt = Ends-bind _ (ih.pipe s (omega (arith, lt))) (λ first s1 c1 le1.
      Ends-bind _ (parseback-Ends fuel first s1 (omega (arith, lt, le1)) c1) (λ cmd s2 c le2.
        Ends-if (peek (59 ∷ []) s2)
          (λ semicolon.
            let next = peek-true (59 ∷ []) s2 semicolon in
            Ends-bind _ (ih.line (gettoken s2).left (omega (arith, lt, le1, le2, next)))
              (λ right s3 r le3. accepts (c, r) (omega (arith, le1, le2, next, le3))))
          (λ stop. accepts c (omega (arith, le1, le2, length-skip_space s2)))))

serve : (fuel : ℕ) → Serve fuel
serve zero = record {
  block = λ s lt. absurd (omega (arith, lt));
  exec = λ s lt. absurd (omega (arith, lt));
  pipe = λ s lt. absurd (omega (arith, lt));
  line = λ s lt. absurd (omega (arith, lt));
}
serve (suc fuel) = record {
  block = parseblock-Serves fuel (serve fuel);
  exec = parseexec-Serves fuel (serve fuel);
  pipe = parsepipe-Serves fuel (serve fuel);
  line = parseline-Serves fuel (serve fuel);
}

Ends-cases :
    {P : Cmd → Type 0} {n : ℕ} {r : Parsed Cmd}
    → Ends P n r
    → (r ≡ rejected) ⊎ ((c : Cmd) × (s : List ℕ) × (r ≡ parsed c s) × P c)
Ends-cases (accepts {a} {s} p le) = inr (a, s, refl, p)
Ends-cases rejects = inl refl

nothing_left :
    (cmd : Cmd) (rest : List ℕ)
    → IsCmd cmd
    → Ends IsCmd 0
        (elim (skip_space rest) as (λ _. Parsed Cmd) [ [] ↦ parsed cmd [] | c ∷ left ↦ rejected ])
nothing_left cmd rest c = go (skip_space rest)
  where
    go :
        (left : List ℕ)
        → Ends IsCmd 0 (elim left as (λ _. Parsed Cmd) [ [] ↦ parsed cmd [] | c ∷ left ↦ rejected ])
    go [] = accepts c (omega arith)
    go (b ∷ left) = rejects

-- On every line `parsecmd` ends: it rejects the line, or it returns a command in which each list of
-- words leaves room for the null pointer in its `argv`, and every argument and file is a word that
-- is not empty and has no white space and no symbol. A recursion depth of four for each byte of the
-- line, and four more, is enough.
pub parsecmd-ends :
    (s : List ℕ)
    → (parsecmd_loop (4 * length s + 4) s ≡ rejected)
      ⊎ ((cmd : Cmd) × (left : List ℕ) × (parsecmd_loop (4 * length s + 4) s ≡ parsed cmd left)
          × IsCmd cmd)
unfolding parsecmd_loop
parsecmd-ends s =
    let line = (serve (4 * length s + 4)).line s (omega arith) in
    Ends-cases (Ends-bind _ line (λ cmd rest c le. nothing_left cmd rest c))
