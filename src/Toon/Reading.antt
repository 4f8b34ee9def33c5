-- ===== src/Toon/Reading.antt =====
-- internal/toon/toon.go: rows of cells that are written by Value can be read back.
use hand.Base.{
  ==_iff, All, Bool, Bool-cases, List, Option, Option-cases, Text, [], ap, arith, exists_where,
  false, inl, inr, ltb, refl, some, suc, sym, zero, ℕ, ◌%◌, ◌*◌, ◌++◌, ◌+◌, ◌/◌, ◌<◌, ◌==◌, ◌^◌,
  ◌||◌, ◌∙◌, ◌∷◌, ◌≡◌,
}
use hand.Toon.Values.{
  Reading, add_char, escape_letter, escape_rune, hex_digit, hex_digits, hex_value, is_marked,
  is_print, letter_value, new_cell, quote, quote_body, read_from, read_row, row, value,
  value_quotes,
}
use mathlib.Core.List.{append_assoc, append-nil}
use native.Mathlib.Nat.{div-div-eq-div-mul, pow-suc}

-- A Unicode code point.
abbrev pub IsRune : ℕ → Type 0
IsRune c = c < 0x110000

hex_value-digit : (d : ℕ) → d < 16 → hex_value (hex_digit d) ≡ some d
unfolding hex_value hex_digit
hex_value-digit d h = ground arith

hex_step :
    (k v d : ℕ) (s : Text)
    → d < 16
    → read_from (Reading.hex (suc k) v) (hex_digit d ∷ s) ≡ read_from (Reading.hex k (16 * v + d)) s
unfolding read_from
hex_step k v d s h = rw (hex_value-digit d h) refl

hex_last :
    (v d : ℕ) (s : Text)
    → d < 16
    → read_from (Reading.hex zero v) (hex_digit d ∷ s)
      ≡ add_char (16 * v + d) (read_from Reading.quoted s)
unfolding read_from
hex_last v d s h = rw (hex_value-digit d h) refl

mod_16 : (n : ℕ) → n % 16 < 16
mod_16 n = omega arith

div_pow : (k n : ℕ) → n / 16 ^ suc k ≡ n / 16 ^ k / 16
div_pow k n = ap (λ p. n / p) (pow-suc 16 k) ∙ sym (div-div-eq-div-mul n (16 ^ k) 16)

-- The digits that are left, read on.
hex_read :
    (k n : ℕ) (s : Text)
    → read_from (Reading.hex k (n / 16 ^ suc k)) (hex_digits (suc k) n ++ s)
      ≡ add_char n (read_from Reading.quoted s)
unfolding hex_digits
hex_read zero n s =
    hex_last (n / 16 ^ 1) (n / 16 ^ 0 % 16) s (mod_16 (n / 16 ^ 0))
    ∙ ap (λ v. add_char v (read_from Reading.quoted s)) (omega arith)
hex_read (suc k) n s =
    let whole : 16 * (n / 16 ^ suc (suc k)) + n / 16 ^ suc k % 16 ≡ n / 16 ^ suc k =
      omega (arith, div_pow (suc k) n) in
    hex_step k (n / 16 ^ suc (suc k)) (n / 16 ^ suc k % 16) (hex_digits (suc k) n ++ s)
      (mod_16 (n / 16 ^ suc k))
    ∙ ap (λ v. read_from (Reading.hex k v) (hex_digits (suc k) n ++ s)) whole
    ∙ hex_read k n s

-- A number below 16 ^ (k + 1) is read from its k + 1 digits.
hex_whole :
    (k n : ℕ) (s : Text)
    → n / 16 ^ suc k ≡ 0
    → read_from (Reading.hex k 0) (hex_digits (suc k) n ++ s)
      ≡ add_char n (read_from Reading.quoted s)
hex_whole k n s e =
    ap (λ v. read_from (Reading.hex k v) (hex_digits (suc k) n ++ s)) (sym e) ∙ hex_read k n s

small_two : (n : ℕ) → n < 256 → n / 16 ^ 2 ≡ 0
small_two n h = omega arith

small_four : (n : ℕ) → n < 0x10000 → n / 16 ^ 4 ≡ 0
small_four n h = omega arith

small_eight : (n : ℕ) → n < 0x100000000 → n / 16 ^ 8 ≡ 0
small_eight n h = omega arith

-- An escape with a letter.
letter_read :
    (c l : ℕ) (s : Text)
    → escape_letter c ≡ some l
    → read_from Reading.quoted (92 ∷ l ∷ s) ≡ add_char c (read_from Reading.quoted s)
unfolding read_from escape_letter
letter_read c l s e = rw letter refl
  where
    letter : letter_value l ≡ some c
    letter = unfold letter_value in ground arith

escape_rune-read :
    (table : ℕ → Bool) (c : ℕ) (s : Text)
    → IsRune c
    → read_from Reading.quoted (escape_rune table c ++ s) ≡ add_char c (read_from Reading.quoted s)
unfolding read_from escape_rune
escape_rune-read table c s h = elim (Bool-cases (c == 34 || c == 92)) [
  | inl e ↦ rw e (elim (Bool-cases (c == 34)) [
    | inl k ↦ let q : c ≡ 34 = (==_iff c 34).0 k in rw q refl
    | inr k ↦ let q : c ≡ 92 = ground arith in rw q refl
  ])
  | inr e ↦ elim (Bool-cases (is_print table c)) [
    | inl f ↦ rw e (
        rw f (
          let unquoted : (c == 34) ≡ false = ground arith in
          let plain : (c == 92) ≡ false = ground arith in rw unquoted (rw plain refl)))
    | inr f ↦ elim (Option-cases (escape_letter c)) [
      | inr (l, g) ↦ rw e (rw f (rw (g) (letter_read c l s g)))
      | inl g ↦ elim (Bool-cases (ltb c 32 || c == 0x7f)) [
        | inl i ↦ rw e (rw f (rw g (rw i (hex_whole 1 c s (small_two c (ground arith))))))
        | inr i ↦ elim (Bool-cases (ltb c 0x10000)) [
          | inl j ↦ rw e (rw f (rw g (rw i (rw j (hex_whole 3 c s (small_four c (ground arith)))))))
          | inr j ↦ rw e (rw f (rw g (rw i (rw j (hex_whole 7 c s (small_eight c (omega arith)))))))
        ]
      ]
    ]
  ]
]

-- A text in front of the first cell.
abbrev add_text : Text → Option (List Text) → Option (List Text)
add_text [] o = o
add_text (c ∷ s) o = add_char c (add_text s o)

quote_body-read :
    (table : ℕ → Bool) (s t : Text)
    → All IsRune s
    → read_from Reading.quoted (quote_body table s ++ t) ≡ add_text s (read_from Reading.quoted t)
unfolding quote_body
quote_body-read table [] t h = refl
quote_body-read table (c ∷ s) t h =
    ap (read_from Reading.quoted) (append_assoc (escape_rune table c) (quote_body table s) t)
    ∙ escape_rune-read table c (quote_body table s ++ t) h.0
    ∙ ap (add_char c) (quote_body-read table s t h.1)

bare-read :
    (s t : Text)
    → exists_where is_marked s ≡ false
    → read_from Reading.bare (s ++ t) ≡ add_text s (read_from Reading.bare t)
unfolding read_from is_marked
bare-read [] t h = refl
bare-read (c ∷ s) t h =
    let inner : (c == 44) ≡ false = ground arith in
    let rest : exists_where is_marked s ≡ false = ground arith in
    rw inner (ap (add_char c) (bare-read s t rest))

-- A cell is followed by the end of the row or by a comma: what is read then does not depend on whether
-- the cell was quoted.
abbrev Follows : Text → Option (List Text) → Type 0
Follows t o = (read_from Reading.bare t ≡ o) × (read_from Reading.closed t ≡ o)

value-read :
    (table : ℕ → Bool) (s t : Text) (o : Option (List Text))
    → All IsRune s
    → Follows t o
    → read_from Reading.start (value table s ++ t) ≡ add_text s o
unfolding value quote read_from
value-read table [] t o h f = f.1
value-read table (c ∷ s) t o h f = elim (Bool-cases (value_quotes (c ∷ s))) [
  | inl e ↦ rw e (
      ap (read_from Reading.quoted) (append_assoc (quote_body table (c ∷ s)) (34 ∷ []) t)
      ∙ quote_body-read table (c ∷ s) (34 ∷ t) h
      ∙ ap (add_text (c ∷ s)) f.1)
  | inr e ↦
      let bare : exists_where is_marked (c ∷ s) ≡ false = unfold value_quotes in ground arith in
      let unquoted : (c == 34) ≡ false = unfold is_marked in ground arith in
      let inner : (c == 44) ≡ false = unfold is_marked in ground arith in
      let rest : exists_where is_marked s ≡ false = ground arith in
      rw e (rw unquoted (rw inner (ap (add_char c) (bare-read s t rest ∙ ap (add_text s) f.0))))
]

add_text-cell : (s : Text) (ts : List Text) → add_text s (some ([] ∷ ts)) ≡ some (s ∷ ts)
add_text-cell [] ts = refl
add_text-cell (c ∷ s) ts = ap (add_char c) (add_text-cell s ts)

row-read :
    (table : ℕ → Bool) (c : Text) (cs : List Text)
    → All (λ s. All IsRune s) (c ∷ cs)
    → read_from Reading.start (row table (c ∷ cs)) ≡ some (c ∷ cs)
unfolding row read_from
row-read table c [] h =
    ap (read_from Reading.start) (sym (append-nil (value table c)))
    ∙ value-read table c [] (some ([] ∷ [])) h.0 (refl, refl)
    ∙ add_text-cell c []
row-read table c (d ∷ ds) h =
    let next : new_cell (read_from Reading.start (row table (d ∷ ds))) ≡ some ([] ∷ d ∷ ds) =
      ap new_cell (row-read table d ds h.1) in
    ap (read_from Reading.start) (append_assoc (value table c) (44 ∷ []) (row table (d ∷ ds)))
    ∙ value-read table c (44 ∷ row table (d ∷ ds)) (some ([] ∷ d ∷ ds)) h.0 (next, next)
    ∙ add_text-cell c (d ∷ ds)

read_row-start :
    (s : Text) (cells : List Text)
    → read_from Reading.start s ≡ some cells
    → read_row s ≡ some cells
unfolding read_row read_from
read_row-start [] cells h = cc
read_row-start (c ∷ s) cells h = h

-- A row of cells of valid text, written by Render with Value and commas, is read back as the same
-- cells: no cell can pass for two, or for another.
pub read_row-row :
    (table : ℕ → Bool) (cells : List Text)
    → All (λ s. All IsRune s) cells
    → read_row (row table cells) ≡ some cells
read_row-row table [] h = unfold read_row row in refl
read_row-row table (c ∷ cs) h = read_row-start (row table (c ∷ cs)) (c ∷ cs) (row-read table c cs h)
