-- ===== src/Toon/Lines.antt =====
-- internal/toon/toon.go: how many lines Render writes.
use hand.Base.{
  All, Bool, Bool-cases, List, Option-cases, Text, [], arith, codes, count_where,
  count_where-append, decimal, decimal_from, exists_where, false, fields, if◌then◌else◌, inl, inr,
  is_empty, is_space, join, length, ltb, one_line, refl, some, suc, true, words_from, zero, ℕ, ◌%◌,
  ◌++◌, ◌+◌, ◌/◌, ◌==◌, ◌^◌, ◌||◌, ◌∙◌, ◌∷◌, ◌≡◌,
}
use hand.Toon.Values.{
  escape_letter, escape_rune, hex_digit, hex_digits, is_marked, is_print, quote, quote_body, row,
  value, value_quotes,
}
use hand.Toon.Render.{
  Block, Doc, indent, plain, render, render_block, render_items, render_rows, render_text,
  trim_newlines,
}
use hand.Toon.Render.{field, text, rows, items}

abbrev pub newlines : Text → ℕ
newlines = count_where (λ c. c == 10)

-- The names of a block are the program's own: none has a line break.
abbrev pub IsNamed : Block → Type 0
IsNamed (field name v) = newlines name ≡ 0
IsNamed (text name v) = newlines name ≡ 0
IsNamed (rows name fields rs) = (newlines name ≡ 0) × (newlines (join (44 ∷ []) fields) ≡ 0)
IsNamed (items name is) = newlines name ≡ 0

-- The lines of a block, by its structure.
abbrev pub block_lines : Block → ℕ
block_lines (field name v) = 1
block_lines (text name v) = elim (trim_newlines (plain v)) [ [] ↦ 1 | c ∷ s ↦ 2 + newlines (c ∷ s) ]
block_lines (rows name fields rs) = 1 + length rs
block_lines (items name is) = 1 + length is

abbrev pub doc_lines : Doc → ℕ
doc_lines [] = 0
doc_lines (b ∷ d) = block_lines b + doc_lines d

newlines-append : (s t : Text) → newlines (s ++ t) ≡ newlines s + newlines t
newlines-append s t = count_where-append (λ c. c == 10) s t

hex_digit-plain : (d : ℕ) → (hex_digit d == 10) ≡ false
unfolding hex_digit
hex_digit-plain d = ground arith

newlines-hex_digits : (k n : ℕ) → newlines (hex_digits k n) ≡ 0
unfolding hex_digits
newlines-hex_digits zero n = refl
newlines-hex_digits (suc k) n = rw (hex_digit-plain (n / 16 ^ k % 16)) (newlines-hex_digits k n)

letter-plain : (c l : ℕ) → escape_letter c ≡ some l → (l == 10) ≡ false
unfolding escape_letter
letter-plain c l e = ground arith

newlines-escape_rune : (table : ℕ → Bool) (c : ℕ) → newlines (escape_rune table c) ≡ 0
unfolding escape_rune
newlines-escape_rune table c = elim (Bool-cases (c == 34 || c == 92)) [
  | inl e ↦ let other : (c == 10) ≡ false = ground arith in rw e (rw other refl)
  | inr e ↦ elim (Bool-cases (is_print table c)) [
    | inl f ↦
        let other : (c == 10) ≡ false = unfold is_print in ground arith in
        rw e (rw f (rw other refl))
    | inr f ↦ elim (Option-cases (escape_letter c)) [
      | inr (l, g) ↦ rw e (rw f (rw g (rw (letter-plain c l g) refl)))
      | inl g ↦ elim (Bool-cases (ltb c 32 || c == 0x7f)) [
        | inl i ↦ rw e (rw f (rw g (rw i (newlines-hex_digits 2 c))))
        | inr i ↦ elim (Bool-cases (ltb c 0x10000)) [
          | inl j ↦ rw e (rw f (rw g (rw i (rw j (newlines-hex_digits 4 c)))))
          | inr j ↦ rw e (rw f (rw g (rw i (rw j (newlines-hex_digits 8 c)))))
        ]
      ]
    ]
  ]
]

newlines-quote_body : (table : ℕ → Bool) (s : Text) → newlines (quote_body table s) ≡ 0
unfolding quote_body
newlines-quote_body table [] = refl
newlines-quote_body table (c ∷ s) = omega (
  arith,
  newlines-append (escape_rune table c) (quote_body table s),
  newlines-escape_rune table c,
  newlines-quote_body table s,
)

newlines-unmarked : (s : Text) → exists_where is_marked s ≡ false → newlines s ≡ 0
unfolding is_marked
newlines-unmarked [] h = refl
newlines-unmarked (c ∷ s) h =
    let rest : exists_where is_marked s ≡ false = ground arith in
    let other : (c == 10) ≡ false = ground arith in rw other (newlines-unmarked s rest)

newlines-value : (table : ℕ → Bool) (s : Text) → newlines (value table s) ≡ 0
unfolding value quote
newlines-value table [] = refl
newlines-value table (c ∷ s) = elim (Bool-cases (value_quotes (c ∷ s))) [
  | inl e ↦ rw e (
      omega (
        arith,
        newlines-append (quote_body table (c ∷ s)) (34 ∷ []),
        newlines-quote_body table (c ∷ s),
      ))
  | inr e ↦ rw e (newlines-unmarked (c ∷ s) (unfold value_quotes in ground arith))
]

newlines-row : (table : ℕ → Bool) (cells : List Text) → newlines (row table cells) ≡ 0
unfolding row
newlines-row table [] = refl
newlines-row table (c ∷ []) = newlines-value table c
newlines-row table (c ∷ d ∷ cs) = omega (
  arith,
  newlines-append (value table c ++ 44 ∷ []) (row table (d ∷ cs)),
  newlines-append (value table c) (44 ∷ []),
  newlines-value table c,
  newlines-row table (d ∷ cs),
)

newlines-decimal_from :
    (fuel n : ℕ) (acc : Text) → newlines acc ≡ 0 → newlines (decimal_from fuel n acc) ≡ 0
unfolding decimal_from
newlines-decimal_from zero n acc h = h
newlines-decimal_from (suc fuel) n acc h = elim (Bool-cases (n == 0)) [
  | inl e ↦ rw e h
  | inr e ↦
      let other : (n % 10 + 48 == 10) ≡ false = ground arith in
      rw e (newlines-decimal_from fuel (n / 10) ((n % 10 + 48) ∷ acc) (rw other h))
]

newlines-decimal : (n : ℕ) → newlines (decimal n) ≡ 0
unfolding decimal
newlines-decimal n = elim (Bool-cases (n == 0)) [
  | inl e ↦ rw e refl
  | inr e ↦ rw e (newlines-decimal_from n n [] refl)
]

skip_word :
    (w : Text) (ws : List Text)
    → newlines w ≡ 0
    → All (λ v. newlines v ≡ 0) ws
    → All (λ v. newlines v ≡ 0) (if is_empty w then ws else w ∷ ws)
skip_word [] ws k h = h
skip_word (a ∷ w) ws k h = (k, h)

newlines-words_from :
    (word s : Text) → newlines word ≡ 0 → All (λ w. newlines w ≡ 0) (words_from word s)
unfolding words_from is_space
newlines-words_from [] [] h = tt
newlines-words_from (a ∷ word) [] h = (h, tt)
newlines-words_from word (c ∷ s) h = elim (Bool-cases (is_space c)) [
  | inl e ↦ rw e (skip_word word (words_from [] s) h (newlines-words_from [] s refl))
  | inr e ↦
      let other : (c == 10) ≡ false = ground arith in
      rw e (
        newlines-words_from (word ++ c ∷ []) s
          (newlines-append word (c ∷ []) ∙ rw other (omega arith)))
]

newlines-join : (ws : List Text) → All (λ w. newlines w ≡ 0) ws → newlines (join (32 ∷ []) ws) ≡ 0
unfolding join
newlines-join [] h = refl
newlines-join (w ∷ []) h = h.0
newlines-join (w ∷ v ∷ ws) h = omega (
  arith,
  newlines-append (w ++ 32 ∷ []) (join (32 ∷ []) (v ∷ ws)),
  newlines-append w (32 ∷ []),
  h.0,
  newlines-join (v ∷ ws) h.1,
)

newlines-one_line : (s : Text) → newlines (one_line s) ≡ 0
unfolding one_line fields
newlines-one_line s = newlines-join (words_from [] s) (newlines-words_from [] s refl)

newlines-render_rows :
    (table : ℕ → Bool) (rs : List (List Text)) → newlines (render_rows table rs) ≡ length rs
newlines-render_rows table [] = refl
newlines-render_rows table (r ∷ rs) =
    newlines-append (row table r) (10 ∷ render_rows table rs)
    ∙ omega (arith, newlines-row table r, newlines-render_rows table rs)

newlines-render_items : (is : List Text) → newlines (render_items is) ≡ length is
newlines-render_items [] = refl
newlines-render_items (i ∷ is) =
    newlines-append (one_line i) (10 ∷ render_items is)
    ∙ omega (arith, newlines-one_line i, newlines-render_items is)

newlines-indent : (fresh : Bool) (s : Text) → newlines (indent fresh s) ≡ 1 + newlines s
unfolding indent
newlines-indent true [] = omega arith
newlines-indent false [] = omega arith
newlines-indent true (c ∷ s) = elim (Bool-cases (c == 10)) [
  | inl e ↦ rw e (omega (arith, newlines-indent true s))
  | inr e ↦ rw e (rw e (newlines-indent false s))
]
newlines-indent false (c ∷ s) = elim (Bool-cases (c == 10)) [
  | inl e ↦ rw e (omega (arith, newlines-indent true s))
  | inr e ↦ rw e (rw e (newlines-indent false s))
]

newlines-render_text :
    (name s : Text)
    → newlines name ≡ 0
    → newlines (render_text name s) ≡ (elim s [ [] ↦ 1 | c ∷ t ↦ 2 + newlines (c ∷ t) ])
newlines-render_text name [] h = newlines-append name (codes ": \"\"\n") ∙ omega (arith, h)
newlines-render_text name (c ∷ s) h =
    newlines-append name (codes ": |\n" ++ indent true (c ∷ s))
    ∙ omega (arith, h, newlines-indent true (c ∷ s))

newlines-render_block :
    (table : ℕ → Bool) (b : Block) → IsNamed b → newlines (render_block table b) ≡ block_lines b
unfolding render_block
newlines-render_block table (field name v) h = omega (
  arith,
  h,
  newlines-append name (58 ∷ 32 ∷ (value table v ++ 10 ∷ [])),
  newlines-append (value table v) (10 ∷ []),
  newlines-value table v,
)
newlines-render_block table (text name v) h = newlines-render_text name (trim_newlines (plain v)) h
newlines-render_block table (rows name fields rs) h = omega (
  arith,
  h.0,
  h.1,
  newlines-append name (
      91
      ∷ (decimal (length rs)
          ++ (codes "]{" ++ (join (44 ∷ []) fields ++ (codes "}:\n" ++ render_rows table rs))))),
  newlines-append (decimal (length rs))
      (codes "]{" ++ (join (44 ∷ []) fields ++ (codes "}:\n" ++ render_rows table rs))),
  newlines-append (join (44 ∷ []) fields) (codes "}:\n" ++ render_rows table rs),
  newlines-decimal (length rs),
  newlines-render_rows table rs,
)
newlines-render_block table (items name is) h = omega (
  arith,
  h,
  newlines-append name (91 ∷ (decimal (length is) ++ (codes "]:\n" ++ render_items is))),
  newlines-append (decimal (length is)) (codes "]:\n" ++ render_items is),
  newlines-decimal (length is),
  newlines-render_items is,
)

-- Render writes one line for a field, one more than there are rows or items for a table or a list, and
-- for a text, once it is cleaned, one more than it has lines of its own: no value, cell or item adds a line, whatever is in
-- it, as long as the names in the document have no line breaks.
pub newlines-render :
    (table : ℕ → Bool) (d : Doc) → All IsNamed d → newlines (render table d) ≡ doc_lines d
unfolding render
newlines-render table [] h = refl
newlines-render table (b ∷ d) h =
    newlines-append (render_block table b) (render table d)
    ∙ omega (arith, newlines-render_block table b h.0, newlines-render table d h.1)
