-- ===== src/Shell.antt =====
-- The command parser of sh.c. A string is the list of its bytes before the null byte, and `*ps` is
-- what is left of it: `s < es` is that it is not empty. A token is its bytes from `q` up to `eq`,
-- which `nulterminate` makes a string of. `panic` ends the parse.
pub mod Tokens
pub mod Ends
pub mod Total
use os182_ass.Prelude.{
  leb, ◌==◌, if◌then◌else◌, ℕ, zero, suc, Bool, false, not, ◌||◌, List, [], ◌∷◌, ◌++◌,
}

abbrev pub maxargs : ℕ
maxargs = 10

-- `strchr(t, c)` for a byte that is not null.
abbrev pub strchr : List ℕ → ℕ → Bool
strchr [] c = false
strchr (d ∷ t) c = (d == c) || strchr t c

-- " \t\r\n\v" and "<|>&;()"
abbrev pub whitespace : List ℕ
whitespace = 32 ∷ 9 ∷ 13 ∷ 10 ∷ 11 ∷ []

abbrev pub symbols : List ℕ
symbols = 60 ∷ 124 ∷ 62 ∷ 38 ∷ 59 ∷ 40 ∷ 41 ∷ []

-- `while(s < es && strchr(whitespace, *s)) s++`
unfoldable pub skip_space : List ℕ → List ℕ
skip_space [] = []
skip_space (c ∷ s) = let rest = skip_space s in if strchr whitespace c then rest else c ∷ s

-- The loop over a word: its bytes, and what is left.
unfoldable pub word_loop : List ℕ → List ℕ × List ℕ
word_loop [] = ([], [])
word_loop (c ∷ s) =
    let (w, rest) = word_loop s in
    if strchr whitespace c || strchr symbols c then ([], c ∷ s) else (c ∷ w, rest)

-- The result of `gettoken`: a symbol by its byte, '+' for `>>`, 'a' for a word, 0 at the end.
pub record Token : Type 0 where
  pub ret : ℕ
  pub text : List ℕ
  pub left : List ℕ

-- The switch of `gettoken`, at `s`.
unfoldable pub token_at : List ℕ → Token
token_at [] = record { ret = 0; text = []; left = [] }
token_at (c ∷ s) =
    if strchr (124 ∷ 40 ∷ 41 ∷ 59 ∷ 38 ∷ 60 ∷ []) c
    then record { ret = c; text = c ∷ []; left = s }
    else if c == 62
    then elim s [
      | [] ↦ record { ret = 62; text = 62 ∷ []; left = [] }
      | d ∷ s' ↦
          if d == 62
          then record { ret = 43; text = 62 ∷ 62 ∷ []; left = s' }
          else record { ret = 62; text = 62 ∷ []; left = d ∷ s' }
    ]
    else record { ret = 97; text = (word_loop (c ∷ s)).0; left = (word_loop (c ∷ s)).1 }

unfoldable pub gettoken : List ℕ → Token
gettoken s = let t = token_at (skip_space s) in record t { left = skip_space t.left }

-- `*s && strchr(toks, *s)` behind the white space.
unfoldable pub peek : List ℕ → List ℕ → Bool
peek toks s = elim (skip_space s) [ [] ↦ false | c ∷ rest ↦ strchr toks c ]

-- `struct redircmd` without its command.
pub record Redirection : Type 0 where
  pub file : List ℕ
  pub mode : ℕ
  pub fd : ℕ

-- `struct cmd`
pub data Cmd : Type 0 where
  execcmd : List (List ℕ) → Cmd
  redircmd : Cmd → Redirection → Cmd
  pipecmd listcmd : Cmd → Cmd → Cmd
  backcmd : Cmd → Cmd

-- A parse ends with a value and what is left, or with `panic`; the recursion has fuel.
pub data Parsed (A : Type 0) : Type 0 where
  parsed : A → List ℕ → Parsed A
  rejected : Parsed A
  out_of_fuel : Parsed A

infixl 5 ◌>>=◌
abbrev pub ◌>>=◌ : {A B : Type 0} → Parsed A → (A × List ℕ → Parsed B) → Parsed B
parsed a s >>= f = f (a, s)
rejected >>= f = rejected
out_of_fuel >>= f = out_of_fuel

-- `O_RDONLY`, and `O_WRONLY|O_CREATE`
abbrev pub redirection : ℕ → List ℕ → Redirection
redirection tok file =
    if tok == 60
    then record { file = file; mode = 0; fd = 0 }
    else record { file = file; mode = 0x201; fd = 1 }

-- The redirections that `parseredirs` puts around its command, in their order.
unfoldable pub parseredirs : ℕ → List ℕ → Parsed (List Redirection)
parseredirs zero s = out_of_fuel
parseredirs (suc fuel) s =
    let tok = gettoken s in
    let file = gettoken tok.left in
    let rest = (do
      (more, s') ← parseredirs fuel file.left
      parsed (redirection tok.ret file.text ∷ more) s') in
    if peek (60 ∷ 62 ∷ []) s
    then (if file.ret == 97 then rest else rejected)
    else parsed [] (skip_space s)

unfoldable pub redirected : Cmd → List Redirection → Cmd
redirected cmd [] = cmd
redirected cmd (r ∷ rs) = redirected (redircmd cmd r) rs

-- The loop of `parseexec`: the words that follow `argc` ones, and the redirections among them. The
-- code puts both into the one `execcmd` that the redirections go around.
unfoldable pub parseargs : ℕ → ℕ → List ℕ → Parsed (List (List ℕ) × List Redirection)
parseargs zero argc s = out_of_fuel
parseargs (suc fuel) argc s =
    let tok = gettoken s in
    let rest = (do
      (redirs, s1) ← parseredirs fuel tok.left
      (more, s2) ← parseargs fuel (suc argc) s1
      parsed (tok.text ∷ more.0, redirs ++ more.1) s2) in
    if peek (124 ∷ 41 ∷ 38 ∷ 59 ∷ []) s
    then parsed ([], []) (skip_space s)
    else if tok.ret == 0
    then parsed ([], []) tok.left
    else if not (tok.ret == 97)
    then rejected
    else if leb maxargs (suc argc)
    then rejected
    else rest

-- `while(peek(ps, es, "&"))` of `parseline`
unfoldable pub parseback : ℕ → Cmd → List ℕ → Parsed Cmd
parseback zero cmd s = out_of_fuel
parseback (suc fuel) cmd s =
    let rest = parseback fuel (backcmd cmd) (gettoken s).left in
    if peek (38 ∷ []) s then rest else parsed cmd (skip_space s)

unfoldable mutual
  pub parseline : ℕ → List ℕ → Parsed Cmd
  parseline zero s = out_of_fuel
  parseline (suc fuel) s = do
    (first, s1) ← parsepipe fuel s
    (cmd, s2) ← parseback fuel first s1
    let more = (do (right, s3) ← parseline fuel (gettoken s2).left; parsed (listcmd cmd right) s3)
    if peek (59 ∷ []) s2 then more else parsed cmd (skip_space s2)

  pub parsepipe : ℕ → List ℕ → Parsed Cmd
  parsepipe zero s = out_of_fuel
  parsepipe (suc fuel) s = do
    (cmd, s1) ← parseexec fuel s
    let more = (do (right, s2) ← parsepipe fuel (gettoken s1).left; parsed (pipecmd cmd right) s2)
    if peek (124 ∷ []) s1 then more else parsed cmd (skip_space s1)

  pub parseexec : ℕ → List ℕ → Parsed Cmd
  parseexec zero s = out_of_fuel
  parseexec (suc fuel) s =
      let block = parseblock fuel s in
      let simple = (do
        (before, s1) ← parseredirs fuel s
        (args, s2) ← parseargs fuel 0 s1
        parsed (redirected (execcmd args.0) (before ++ args.1)) s2) in
      if peek (40 ∷ []) s then block else simple

  -- It is called at an opening parenthesis.
  pub parseblock : ℕ → List ℕ → Parsed Cmd
  parseblock zero s = out_of_fuel
  parseblock (suc fuel) s =
      let inside = (do
        (cmd, s1) ← parseline fuel (gettoken s).left
        let closed = (do
          (redirs, s2) ← parseredirs fuel (gettoken s1).left
          parsed (redirected cmd redirs) s2)
        if peek (41 ∷ []) s1 then closed else rejected) in
      if peek (40 ∷ []) s then inside else rejected

-- `parsecmd`, with fuel; a leftover is a syntax error.
unfoldable pub parsecmd_loop : ℕ → List ℕ → Parsed Cmd
parsecmd_loop fuel s = do
  (cmd, rest) ← parseline fuel s
  elim (skip_space rest) [ [] ↦ parsed cmd [] | c ∷ left ↦ rejected ]
