-- ===== src/Toon/Values.antt =====
-- internal/toon/toon.go, Value: how a cell of a table is written, with strconv.Quote; and a reader of
-- such rows. Which characters past ASCII print is a table of package unicode, and an argument.
use hand.Base.{
  Bool, List, Option, Text, [], exists_where, if◌then◌else◌, join, leb, ltb, map, none, not, some,
  suc, text_eq, trim_space, zero, ℕ, ◌%◌, ◌&&◌, ◌*◌, ◌++◌, ◌+◌, ◌-◌, ◌/◌, ◌==◌, ◌^◌, ◌||◌, ◌∷◌,
}

-- strconv.IsPrint.
unfoldable pub is_print : (ℕ → Bool) → ℕ → Bool
is_print table c = if ltb c 0x80 then leb 0x20 c && ltb c 0x7f else table c

-- A hexadecimal digit, lower case, and what one stands for.
unfoldable pub hex_digit : ℕ → ℕ
hex_digit d = if ltb d 10 then 48 + d else 87 + d

unfoldable pub hex_value : ℕ → Option ℕ
hex_value c =
    if leb 48 c && leb c 57
    then some (c - 48)
    else if leb 97 c && leb c 102
    then some (c - 87)
    else none

-- The lowest `k` hexadecimal digits of a number.
unfoldable pub hex_digits : ℕ → ℕ → Text
unfolding hex_digit
hex_digits zero n = []
hex_digits (suc k) n = hex_digit (n / 16 ^ k % 16) ∷ hex_digits k n

-- The escapes with a letter, of package strconv: \a \b \f \n \r \t \v.
unfoldable pub escape_letter : ℕ → Option ℕ
escape_letter c =
    if c == 7
    then some b'a'
    else if c == 8
    then some b'b'
    else if c == 12
    then some b'f'
    else if c == 10
    then some b'n'
    else if c == 13
    then some b'r'
    else if c == 9
    then some b't'
    else if c == 11
    then some b'v'
    else none

-- strconv's appendEscapedRune.
unfoldable pub escape_rune : (ℕ → Bool) → ℕ → Text
unfolding is_print escape_letter hex_digits
escape_rune table c =
    if c == 34 || c == 92
    then 92 ∷ c ∷ []
    else if is_print table c
    then c ∷ []
    else elim (escape_letter c) [
      | some l ↦ 92 ∷ l ∷ []
      | none ↦
          if ltb c 32 || c == 0x7f
          then 92 ∷ b'x' ∷ hex_digits 2 c
          else if ltb c 0x10000
          then 92 ∷ b'u' ∷ hex_digits 4 c
          else 92 ∷ b'U' ∷ hex_digits 8 c
    ]

unfoldable pub quote_body : (ℕ → Bool) → Text → Text
unfolding escape_rune
quote_body table [] = []
quote_body table (c ∷ s) = escape_rune table c ++ quote_body table s

-- strconv.Quote.
unfoldable pub quote : (ℕ → Bool) → Text → Text
unfolding quote_body
quote table s = 34 ∷ (quote_body table s ++ 34 ∷ [])

-- The test of Value: strings.ContainsAny(s, ",:\"\n\r\t"), or blanks at an end.
unfoldable pub is_marked : ℕ → Bool
is_marked c = c == 44 || c == 58 || c == 34 || c == 10 || c == 13 || c == 9

unfoldable pub value_quotes : Text → Bool
unfolding is_marked text_eq trim_space
value_quotes s = exists_where is_marked s || not (text_eq (trim_space s) s)

-- Value.
unfoldable pub value : (ℕ → Bool) → Text → Text
unfolding value_quotes quote
value table [] = 34 ∷ 34 ∷ []
value table (c ∷ s) = if value_quotes (c ∷ s) then quote table (c ∷ s) else c ∷ s

-- A row of a table, as Render writes it past its indentation.
unfoldable pub row : (ℕ → Bool) → List Text → Text
unfolding join value
row table cells = join (44 ∷ []) (map (value table) cells)

-- Where a reader of a row is.
pub data Reading : Type 0 where
  start bare quoted closed escaped : Reading
  hex : ℕ → ℕ → Reading

abbrev pub add_char : ℕ → Option (List Text) → Option (List Text)
add_char c none = none
add_char c (some []) = none
add_char c (some (t ∷ ts)) = some ((c ∷ t) ∷ ts)

abbrev pub new_cell : Option (List Text) → Option (List Text)
new_cell none = none
new_cell (some ts) = some ([] ∷ ts)

abbrev pub after_digit : ℕ → Option ℕ → (ℕ → Option (List Text)) → Option (List Text)
after_digit v none k = none
after_digit v (some d) k = k (16 * v + d)

-- The character that an escape with a letter stands for.
unfoldable pub letter_value : ℕ → Option ℕ
letter_value l =
    if l == b'a'
    then some 7
    else if l == b'b'
    then some 8
    else if l == b'f'
    then some 12
    else if l == b'n'
    then some 10
    else if l == b'r'
    then some 13
    else if l == b't'
    then some 9
    else if l == b'v'
    then some 11
    else if l == 34 || l == 92
    then some l
    else none

-- How many digits an escape takes.
unfoldable pub hex_length : ℕ → Option ℕ
hex_length l =
    if l == b'x' then some 1 else if l == b'u' then some 3 else if l == b'U' then some 7 else none

unfoldable pub read_from : Reading → Text → Option (List Text)
unfolding hex_value letter_value hex_length
read_from Reading.bare [] = some ([] ∷ [])
read_from Reading.closed [] = some ([] ∷ [])
read_from r [] = none
read_from Reading.start (c ∷ s) =
    let q = read_from Reading.quoted s in
    let b = add_char c (read_from Reading.bare s) in
    if c == 34 then q else if c == 44 then none else b
read_from Reading.bare (c ∷ s) =
    let next = new_cell (read_from Reading.start s) in
    let b = add_char c (read_from Reading.bare s) in if c == 44 then next else b
read_from Reading.quoted (c ∷ s) =
    let end = read_from Reading.closed s in
    let esc = read_from Reading.escaped s in
    let q = add_char c (read_from Reading.quoted s) in
    if c == 34 then end else if c == 92 then esc else q
read_from Reading.closed (c ∷ s) =
    let next = new_cell (read_from Reading.start s) in if c == 44 then next else none
read_from Reading.escaped (c ∷ s) = elim (letter_value c) [
  | some v ↦ add_char v (read_from Reading.quoted s)
  | none ↦ elim (hex_length c) [ some k ↦ read_from (Reading.hex k 0) s | none ↦ none ]
]
read_from (Reading.hex zero v) (c ∷ s) =
    after_digit v (hex_value c) (λ n. add_char n (read_from Reading.quoted s))
read_from (Reading.hex (suc k) v) (c ∷ s) =
    after_digit v (hex_value c) (λ n. read_from (Reading.hex k n) s)

-- The cells of a row.
unfoldable pub read_row : Text → Option (List Text)
unfolding read_from
read_row [] = some []
read_row (c ∷ s) = read_from Reading.start (c ∷ s)
