-- ===== src/Toon.antt =====
-- internal/toon/toon.go, ShellQuote, and how a POSIX shell reads one word.
pub mod Values
pub mod Reading
pub mod Render
pub mod Lines
use hand.Base.{
  ==_iff, Bool, Bool-cases, Option, Text, [], if◌then◌else◌, inl, inr, none, refl, some, ℕ, ◌++◌,
  ◌==◌, ◌||◌, ◌∷◌, ◌≡◌,
}

-- strings.ReplaceAll(s, "'", `'\''`).
unfoldable pub escape_quotes : Text → Text
escape_quotes [] = []
escape_quotes (c ∷ s) =
    let rest = escape_quotes s in if c == 39 then 39 ∷ 92 ∷ 39 ∷ 39 ∷ rest else c ∷ rest

-- ShellQuote.
unfoldable pub shell_quote : Text → Text
unfolding escape_quotes
shell_quote s = 39 ∷ (escape_quotes s ++ 39 ∷ [])

-- The characters that end a word or mean something to a shell outside quotes.
is_special : ℕ → Bool
is_special c =
    c == 9
    || c == 10
    || c == 32
    || c == 34
    || c == 35
    || c == 36
    || c == 38
    || c == 40
    || c == 41
    || c == 42
    || c == 59
    || c == 60
    || c == 62
    || c == 63
    || c == 91
    || c == 96
    || c == 124
    || c == 126

abbrev prepend : ℕ → Option Text → Option Text
prepend c none = none
prepend c (some s) = some (c ∷ s)

-- Where a shell is in a word.
pub data Place : Type 0 where
  outside inside escaped : Place

-- The text that one word of a command line stands for, read from a place on; `none` where a quote is
-- left open or the line is not one plain word.
unfoldable pub shell_read : Place → Text → Option Text
unfolding is_special
shell_read Place.outside [] = some []
shell_read Place.inside [] = none
shell_read Place.escaped [] = none
shell_read Place.outside (c ∷ s) =
    let quoted = shell_read Place.inside s in
    let behind = shell_read Place.escaped s in
    let on = shell_read Place.outside s in
    if c == 39
    then quoted
    else if c == 92
    then behind
    else if is_special c
    then none
    else prepend c on
shell_read Place.inside (c ∷ s) =
    let closed = shell_read Place.outside s in
    let on = shell_read Place.inside s in if c == 39 then closed else prepend c on
shell_read Place.escaped (c ∷ s) = prepend c (shell_read Place.outside s)

escaped-read : (s : Text) → shell_read Place.inside (escape_quotes s ++ 39 ∷ []) ≡ some s
unfolding shell_read escape_quotes
escaped-read [] = refl
escaped-read (c ∷ s) = elim (Bool-cases (c == 39)) [
  | inl e ↦ let quote : c ≡ 39 = (==_iff c 39).0 e in rw quote (rw (escaped-read s) refl)
  | inr e ↦ rw e (rw e (rw (escaped-read s) refl))
]

-- A shell reads back any text that ShellQuote has quoted, as one word.
pub shell_read-shell_quote : (s : Text) → shell_read Place.outside (shell_quote s) ≡ some s
unfolding shell_quote shell_read
shell_read-shell_quote s = escaped-read s
