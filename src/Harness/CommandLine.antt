-- ===== src/Harness/CommandLine.antt =====
-- internal/harness/commandline.go: how long the command line of a program becomes on Windows. Beside
-- it stand the quoting that the length is of, and how a Windows program reads one argument back.
use hand.Base.{
  ==_iff, Bool, Bool-cases, List, Option, Result, Text, [], ap, arith, err, exists_where, false,
  if◌then◌else◌, inl, inr, invalid, join, length, ltb, map, none, not, ok, refl, some, suc, sym,
  true, zero, ℕ, ◌%◌, ◌*◌, ◌++◌, ◌+◌, ◌-◌, ◌/◌, ◌<◌, ◌==◌, ◌||◌, ◌↔◌, ◌∙◌, ◌∷◌, ◌≡◌, ◌≢◌,
}

-- MaxWindowsCommandLine.
abbrev pub max_windows_command_line : ℕ
max_windows_command_line = 32766

-- utf16.Encode of the runes of a text.
unfoldable pub utf16 : Text → List ℕ
utf16 [] = []
utf16 (c ∷ s) =
    let rest = utf16 s in
    if ltb c 0x10000
    then c ∷ rest
    else (0xd800 + (c - 0x10000) / 0x400) ∷ (0xdc00 + (c - 0x10000) % 0x400) ∷ rest

-- The test of quotedLen: ' ', '\t', '\n', '\v' or '"'.
unfoldable pub needs_quotes : ℕ → Bool
needs_quotes u = u == 32 || u == 9 || u == 10 || u == 11 || u == 34

-- The loop of quotedLen, with its `n` and `slashes`.
unfoldable pub quoted_len_from : ℕ → ℕ → List ℕ → ℕ
quoted_len_from n slashes [] = n + 2 * slashes
quoted_len_from n slashes (u ∷ arg) =
    let slash = quoted_len_from n (suc slashes) arg in
    let quote = quoted_len_from (n + (2 * slashes + 2)) 0 arg in
    let plain = quoted_len_from (n + (slashes + 1)) 0 arg in
    if u == 92 then slash else if u == 34 then quote else plain

-- quotedLen.
unfoldable pub quoted_len : List ℕ → ℕ
unfolding quoted_len_from needs_quotes
quoted_len [] = quoted_len_from 2 0 []
quoted_len (u ∷ arg) =
    if exists_where needs_quotes (u ∷ arg) then quoted_len_from 2 0 (u ∷ arg) else length (u ∷ arg)

-- The loop of CommandLineLen past the first argument, which adds a blank before each.
unfoldable pub command_line_len_from : ℕ → List Text → ℕ
unfolding quoted_len utf16
command_line_len_from n [] = n
command_line_len_from n (a ∷ argv) = command_line_len_from (n + 1 + quoted_len (utf16 a)) argv

-- CommandLineLen.
unfoldable pub command_line_len : List Text → ℕ
unfolding command_line_len_from
command_line_len [] = 0
command_line_len (a ∷ argv) = command_line_len_from (quoted_len (utf16 a)) argv

-- checkCommandLine; `windows` says that goos is "windows".
unfoldable pub check_command_line : Bool → List Text → Result (Unit {0})
unfolding command_line_len
check_command_line windows argv =
    if not windows
    then ok tt
    else if ltb max_windows_command_line (command_line_len argv)
    then err invalid
    else ok tt

-- `n` backslashes before a text.
abbrev pub slashed : ℕ → List ℕ → List ℕ
slashed zero s = s
slashed (suc n) s = 92 ∷ slashed n s

-- The quoting: backslashes are doubled before a quote, and before the end.
unfoldable pub quote_from : ℕ → List ℕ → List ℕ
quote_from k [] = slashed (2 * k) (34 ∷ [])
quote_from k (u ∷ arg) =
    let slash = quote_from (suc k) arg in
    let quote = slashed (2 * k) (92 ∷ 34 ∷ quote_from 0 arg) in
    let plain = slashed k (u ∷ quote_from 0 arg) in
    if u == 92 then slash else if u == 34 then quote else plain

unfoldable pub quote_arg : List ℕ → List ℕ
unfolding quote_from needs_quotes
quote_arg [] = 34 ∷ quote_from 0 []
quote_arg (u ∷ arg) =
    if exists_where needs_quotes (u ∷ arg) then 34 ∷ quote_from 0 (u ∷ arg) else u ∷ arg

abbrev before : ℕ → List ℕ → Option (List ℕ) → Option (List ℕ)
before k s none = none
before k s (some t) = some (slashed k (s ++ t))

-- How a Windows program reads one argument: whether it is inside quotes, how many backslashes it has
-- just read, and the rest. `none` where the argument ends early or a quote stays open.
unfoldable pub read_arg : Bool → ℕ → List ℕ → Option (List ℕ)
read_arg true k [] = none
read_arg false k [] = some (slashed k [])
read_arg inside k (u ∷ s) =
    let slash = read_arg inside (suc k) s in
    let turn = before (k / 2) [] (read_arg (not inside) 0 s) in
    let quote = before (k / 2) (34 ∷ []) (read_arg inside 0 s) in
    let plain = before k (u ∷ []) (read_arg inside 0 s) in
    if u == 92
    then slash
    else if u == 34
    then (if k % 2 == 0 then turn else quote)
    else if inside
    then plain
    else if u == 32 || u == 9
    then none
    else plain

length-slashed : (k : ℕ) (s : List ℕ) → length (slashed k s) ≡ k + length s
length-slashed zero s = omega arith
length-slashed (suc k) s = omega (arith, length-slashed k s)

length-quote_from :
    (n k : ℕ) (arg : List ℕ) → quoted_len_from n k arg + 1 ≡ n + length (quote_from k arg)
unfolding quoted_len_from quote_from
length-quote_from n k [] = omega (arith, length-slashed (2 * k) (34 ∷ []))
length-quote_from n k (u ∷ arg) = elim (Bool-cases (u == 92)) [
  | inl e ↦ rw e (length-quote_from n (suc k) arg)
  | inr e ↦ elim (Bool-cases (u == 34)) [
    | inl f ↦ rw e (
        rw f (
          omega (
            arith,
            length-quote_from (n + (2 * k + 2)) 0 arg,
            length-slashed (2 * k) (92 ∷ 34 ∷ quote_from 0 arg),
          )))
    | inr f ↦ rw e (
        rw f (
          omega (
            arith,
            length-quote_from (n + (k + 1)) 0 arg,
            length-slashed k (u ∷ quote_from 0 arg),
          )))
  ]
]

length-quote_arg : (arg : List ℕ) → quoted_len arg ≡ length (quote_arg arg)
unfolding quoted_len quote_arg
length-quote_arg [] = refl
length-quote_arg (u ∷ arg) = elim (Bool-cases (exists_where needs_quotes (u ∷ arg))) [
  | inl e ↦ rw e (omega (arith, length-quote_from 2 0 (u ∷ arg)))
  | inr e ↦ rw e refl
]

slashed-one : (k : ℕ) (s : List ℕ) → slashed k (92 ∷ s) ≡ slashed (suc k) s
slashed-one zero s = refl
slashed-one (suc k) s = ap (λ t. 92 ∷ t) (slashed-one k s)

read_arg-slashed :
    (b : Bool) (j k n : ℕ) (s : List ℕ) → n ≡ k + j → read_arg b j (slashed k s) ≡ read_arg b n s
unfolding read_arg
read_arg-slashed b j zero n s e = ap (λ i. read_arg b i s) (omega arith)
read_arg-slashed b j (suc k) n s e = read_arg-slashed b (suc j) k n s (omega arith)

-- A quote behind an even number of backslashes, and behind an odd one.
read_arg-turn :
    (b : Bool) (k : ℕ) (s : List ℕ)
    → read_arg b 0 (slashed (2 * k) (34 ∷ s)) ≡ before k [] (read_arg (not b) 0 s)
unfolding read_arg
read_arg-turn b k s =
    let half : 2 * k / 2 ≡ k = omega arith in
    let even : 2 * k % 2 ≡ 0 = omega arith in
    rw (read_arg-slashed b 0 (2 * k) (2 * k) (34 ∷ s) (omega arith)) (rw even (rw half refl))

read_arg-quote :
    (b : Bool) (k : ℕ) (s : List ℕ)
    → read_arg b 0 (slashed (2 * k) (92 ∷ 34 ∷ s)) ≡ before k (34 ∷ []) (read_arg b 0 s)
unfolding read_arg
read_arg-quote b k s =
    let half : suc (2 * k) / 2 ≡ k = omega arith in
    let odd : suc (2 * k) % 2 ≡ 1 = omega arith in
    rw (read_arg-slashed b 0 (2 * k) (2 * k) (92 ∷ 34 ∷ s) (omega arith)) (rw odd (rw half refl))

read_arg-quote_from :
    (k : ℕ) (arg : List ℕ) → read_arg true 0 (quote_from k arg) ≡ some (slashed k arg)
unfolding read_arg quote_from
read_arg-quote_from k [] = read_arg-turn true k []
read_arg-quote_from k (u ∷ arg) = elim (Bool-cases (u == 92)) [
  | inl e ↦
      let slash : u ≡ 92 = (==_iff u 92).0 e in
      rw slash (read_arg-quote_from (suc k) arg ∙ ap some (sym (slashed-one k arg)))
  | inr e ↦ elim (Bool-cases (u == 34)) [
    | inl f ↦
        let quote : u ≡ 34 = (==_iff u 34).0 f in
        rw quote (read_arg-quote true k (quote_from 0 arg) ∙ rw (read_arg-quote_from 0 arg) refl)
    | inr f ↦ rw e (
        rw f (
          read_arg-slashed true 0 k k (u ∷ quote_from 0 arg) (omega arith)
          ∙ rw e (rw f (rw (read_arg-quote_from 0 arg) refl))))
  ]
]

-- An argument with nothing to quote is read as it stands.
read_arg-bare :
    (k : ℕ) (arg : List ℕ)
    → exists_where needs_quotes arg ≡ false
    → read_arg false k arg ≡ some (slashed k arg)
unfolding read_arg needs_quotes
read_arg-bare k [] h = refl
read_arg-bare k (u ∷ arg) h = elim (Bool-cases (u == 92)) [
  | inl e ↦
      let slash : u ≡ 92 = (==_iff u 92).0 e in
      rw slash (read_arg-bare (suc k) arg (ground arith) ∙ ap some (sym (slashed-one k arg)))
  | inr e ↦
      let rest : exists_where needs_quotes arg ≡ false = ground arith in
      let bare : (u == 34) ≡ false = ground arith in
      let solid : (u == 32 || u == 9) ≡ false = ground arith in
      rw e (rw bare (rw solid (rw (read_arg-bare 0 arg rest) refl)))
]

read_arg-quote_arg : (arg : List ℕ) → read_arg false 0 (quote_arg arg) ≡ some arg
unfolding read_arg quote_arg
read_arg-quote_arg [] = refl
read_arg-quote_arg (u ∷ arg) = elim (Bool-cases (exists_where needs_quotes (u ∷ arg))) [
  | inl e ↦ rw e (rw (read_arg-quote_from 0 (u ∷ arg)) refl)
  | inr e ↦ rw e (read_arg-bare 0 (u ∷ arg) e)
]

-- A command line: the quoted arguments with blanks between them.
unfoldable pub command_line : List Text → List ℕ
unfolding quote_arg utf16 join
command_line argv = join (32 ∷ []) (map (λ a. quote_arg (utf16 a)) argv)

length-append : (s t : List ℕ) → length (s ++ t) ≡ length s + length t
length-append [] t = omega arith
length-append (u ∷ s) t = omega (arith, length-append s t)

command_line-cons :
    (a b : Text) (argv : List Text)
    → command_line (a ∷ b ∷ argv) ≡ (quote_arg (utf16 a) ++ 32 ∷ []) ++ command_line (b ∷ argv)
unfolding command_line
command_line-cons a b argv = refl

length-command_line_from :
    (m n : ℕ) (a : Text) (argv : List Text)
    → m ≡ n + quoted_len (utf16 a)
    → command_line_len_from m argv ≡ n + length (command_line (a ∷ argv))
unfolding command_line_len_from
length-command_line_from m n a [] e =
    unfold command_line in omega (arith, length-quote_arg (utf16 a))
length-command_line_from m n a (b ∷ argv) e =
    length-command_line_from (m + 1 + quoted_len (utf16 b)) (m + 1) b argv refl
    ∙ omega (
      arith,
      length-quote_arg (utf16 a),
      ap length (command_line-cons a b argv),
      length-append (quote_arg (utf16 a) ++ 32 ∷ []) (command_line (b ∷ argv)),
      length-append (quote_arg (utf16 a)) (32 ∷ []),
    )

-- The length that CommandLineLen gives is that of a command line in which each argument is quoted, with
-- one blank between two; and a Windows program reads each quoted argument back as it was.
pub command_line_len-command_line :
    (argv : List Text)
    → (command_line_len argv ≡ length (command_line argv))
      × ((a : Text) → read_arg false 0 (quote_arg (utf16 a)) ≡ some (utf16 a))
unfolding command_line_len
command_line_len-command_line [] = (unfold command_line in refl, λ a. read_arg-quote_arg (utf16 a))
command_line_len-command_line (a ∷ argv) = (
  omega (arith, length-command_line_from (quoted_len (utf16 a)) 0 a argv (omega arith)),
  λ b. read_arg-quote_arg (utf16 b),
)

-- Starting a program is refused as invalid exactly on Windows, where its quoted command line is longer
-- than 32766 code units; anything else passes.
pub check_command_line_iff :
    (windows : Bool) (argv : List Text)
    → ((check_command_line windows argv ≡ err invalid)
        ↔ ((windows ≡ true) × (32766 < length (command_line argv))))
      × ((check_command_line windows argv ≢ err invalid) → check_command_line windows argv ≡ ok tt)
unfolding check_command_line
check_command_line_iff windows argv =
    let same = (command_line_len-command_line argv).0 in
    ((λ h. (ground arith, ground (arith, same)), λ h. ground (arith, same)), λ h. ground arith)
