-- ===== src/Shell/Ends.antt =====
-- The loops of the parser end, and what they return is well formed.
use os182_ass.Prelude.{
  leb, ◌==◌, if◌then◌else◌, length, ℕ, zero, suc, ◌+◌, ◌≤◌, ◌<◌, ◌≡◌, refl, sym, ap, subst, inl,
  inr, Bool, true, false, not, List, [], ◌∷◌, ◌++◌, arith,
}
use os182_ass.Shell.{
  maxargs, gettoken, peek, Redirection, redirection, Cmd, execcmd, redircmd, pipecmd, listcmd,
  backcmd, Parsed, parsed, rejected, ◌>>=◌, parseredirs, redirected, parseargs, parseback,
}
use os182_ass.Shell.Tokens.{IsWord, length-skip_space, gettoken-cases, peek-true}

-- The parse ended: it was rejected, or its value satisfies `P` and at most `n` bytes are left.
pub data Ends {A : Type 0} (P : A → Type 0) (n : ℕ) : Parsed A → Type 0 where
  accepts : {a : A} {s : List ℕ} → P a → length s ≤ n → Ends P n (parsed a s)
  rejects : Ends P n rejected

pub Ends-bind :
    {A B : Type 0} {P : A → Type 0} {Q : B → Type 0} {n k : ℕ} {m : Parsed A}
    (f : A × List ℕ → Parsed B)
    → Ends P n m
    → ((a : A) (s : List ℕ) → P a → length s ≤ n → Ends Q k (f (a, s)))
    → Ends Q k (m >>= f)
Ends-bind f (accepts {a} {s} p le) rest = rest a s p le
Ends-bind f rejects rest = rejects

pub Ends-weaken :
    {A : Type 0} {P : A → Type 0} {n k : ℕ} {m : Parsed A} → n ≤ k → Ends P n m → Ends P k m
Ends-weaken le (accepts p l) = accepts p (omega (arith, le, l))
Ends-weaken le rejects = rejects

pub Ends-if :
    {A : Type 0} {P : A → Type 0} {n : ℕ} (b : Bool) {m k : Parsed A}
    → (b ≡ true → Ends P n m)
    → (b ≡ false → Ends P n k)
    → Ends P n (if b then m else k)
Ends-if true yes_case no_case = yes_case refl
Ends-if false yes_case no_case = no_case refl

-- The files of redirections are words.
abbrev pub AreFiles : List Redirection → Type 0
AreFiles [] = Unit
AreFiles (r ∷ rs) = IsWord r.file × AreFiles rs

abbrev pub AreWords : List (List ℕ) → Type 0
AreWords [] = Unit
AreWords (w ∷ ws) = IsWord w × AreWords ws

-- Each command has fewer words than `argv` has places, and words are what they should be.
abbrev pub IsCmd : Cmd → Type 0
IsCmd (execcmd args) = (length args < maxargs) × AreWords args
IsCmd (redircmd cmd r) = IsCmd cmd × IsWord r.file
IsCmd (pipecmd left right) = IsCmd left × IsCmd right
IsCmd (listcmd left right) = IsCmd left × IsCmd right
IsCmd (backcmd cmd) = IsCmd cmd

pub AreFiles-append : (rs qs : List Redirection) → AreFiles rs → AreFiles qs → AreFiles (rs ++ qs)
AreFiles-append [] qs a b = b
AreFiles-append (r ∷ rs) qs a b = (a.0, AreFiles-append rs qs a.1 b)

pub IsCmd-redirected :
    (cmd : Cmd) (rs : List Redirection) → IsCmd cmd → AreFiles rs → IsCmd (redirected cmd rs)
unfolding redirected
IsCmd-redirected cmd [] c f = c
IsCmd-redirected cmd (r ∷ rs) c f = IsCmd-redirected (redircmd cmd r) rs (c, f.0) f.1

redirection-file : (tok : ℕ) (file : List ℕ) → (redirection tok file).file ≡ file
redirection-file tok file = ground arith

pub parseredirs-Ends :
    (fuel : ℕ) (s : List ℕ) → length s < fuel → Ends AreFiles (length s) (parseredirs fuel s)
unfolding parseredirs
parseredirs-Ends zero s lt = absurd (omega (arith, lt))
parseredirs-Ends (suc fuel) s lt =
    Ends-if (peek (60 ∷ 62 ∷ []) s)
      (λ open_tok.
        Ends-if ((gettoken (gettoken s).left).ret == 97)
          (λ word.
            let first = peek-true (60 ∷ 62 ∷ []) s open_tok in
            elim (gettoken-cases (gettoken s).left) [
              | inl at_end ↦ absurd (ground (arith, word, at_end.0))
              | inr (shorter, is_word) ↦
                  Ends-bind _
                    (parseredirs-Ends fuel (gettoken (gettoken s).left).left
                      (omega (arith, lt, first, shorter)))
                    (λ more s' files le.
                      accepts
                        (
                          subst IsWord
                              (sym (
                                redirection-file (gettoken s).ret
                                  (gettoken (gettoken s).left).text))
                              (is_word (ground (arith, word))),
                          files,
                        )
                        (omega (arith, le, first, shorter)))
            ])
          (λ no_word. rejects))
      (λ no_tok. accepts tt (length-skip_space s))

-- The words that follow `argc` ones, and the redirections among them.
abbrev pub Arguments : ℕ → List (List ℕ) × List Redirection → Type 0
Arguments argc args = (argc + length args.0 < maxargs) × AreWords args.0 × AreFiles args.1

pub parseargs-Ends :
    (fuel argc : ℕ) (s : List ℕ)
    → length s < fuel
    → argc < maxargs
    → Ends (Arguments argc) (length s) (parseargs fuel argc s)
unfolding parseargs
parseargs-Ends zero argc s lt few = absurd (omega (arith, lt))
parseargs-Ends (suc fuel) argc s lt few =
    Ends-if (peek (124 ∷ 41 ∷ 38 ∷ 59 ∷ []) s)
      (λ stop. accepts (omega (arith, few), tt, tt) (length-skip_space s))
      (λ go.
        Ends-if ((gettoken s).ret == 0)
          (λ at_end. elim (gettoken-cases s) [
            | inl nothing ↦
                accepts (omega (arith, few), tt, tt) (omega (arith, ap length nothing.1))
            | inr some_token ↦ accepts (omega (arith, few), tt, tt) (omega (arith, some_token.0))
          ])
          (λ token.
            Ends-if (not ((gettoken s).ret == 97)) (λ bad. rejects)
              (λ word.
                Ends-if (leb maxargs (suc argc)) (λ many. rejects)
                  (λ fits. elim (gettoken-cases s) [
                    | inl nothing ↦ absurd (ground (arith, token, nothing.0))
                    | inr (shorter, is_word) ↦
                        Ends-bind _
                          (parseredirs-Ends fuel (gettoken s).left (omega (arith, lt, shorter)))
                          (λ redirs s1 files le1.
                            Ends-bind _
                              (parseargs-Ends fuel (suc argc) s1 (omega (arith, lt, shorter, le1))
                                (ground (arith, fits)))
                              (λ more s2 args le2.
                                accepts
                                  (
                                    omega (arith, args.0),
                                    (is_word (ground (arith, word)), args.1),
                                    AreFiles-append redirs more.1 files args.2,
                                  )
                                  (omega (arith, shorter, le1, le2))))
                  ]))))

pub parseback-Ends :
    (fuel : ℕ) (cmd : Cmd) (s : List ℕ)
    → length s < fuel
    → IsCmd cmd
    → Ends IsCmd (length s) (parseback fuel cmd s)
unfolding parseback
parseback-Ends zero cmd s lt c = absurd (omega (arith, lt))
parseback-Ends (suc fuel) cmd s lt c =
    Ends-if (peek (38 ∷ []) s)
      (λ again.
        let shorter = peek-true (38 ∷ []) s again in
        Ends-weaken (omega (arith, shorter))
          (parseback-Ends fuel (backcmd cmd) (gettoken s).left (omega (arith, lt, shorter)) c))
      (λ stop. accepts c (length-skip_space s))
