-- ===== src/Toon/Render.antt =====
-- internal/toon/toon.go: documents, and how Render writes them.
use hand.Base.{
  Bool, List, Option, Text, [], codes, decimal, false, fields, if◌then◌else◌, is_control, join, leb,
  length, none, not, one_line, some, suc, true, zero, ℕ, ◌&&◌, ◌++◌, ◌==◌, ◌||◌, ◌∷◌,
}
use hand.Toon.Values.{row, value}

-- A block; the constructor is its blockKind.
pub data Block : Type 0 where
  field : (name value : Text) → Block
  text : (name value : Text) → Block
  rows : (name : Text) (fields : List Text) (rows : List (List Text)) → Block
  items : (name : Text) (items : List Text) → Block

-- Doc.
abbrev pub Doc : Type 0
Doc = List Block

-- Doc.Help: nothing for no lines.
unfoldable pub help : List Text → Doc → Doc
help [] d = d
help (l ∷ ls) d = d ++ items (codes "help") (l ∷ ls) ∷ []

-- lineEnds: "\r\n" and "\r" become "\n".
unfoldable pub line_ends : Text → Text
line_ends [] = []
line_ends (c ∷ []) = (if c == 13 then 10 else c) ∷ []
line_ends (c ∷ d ∷ s) =
    let rest = line_ends (d ∷ s) in
    let skip = line_ends s in
    if c == 13 then (if d == 10 then 10 ∷ skip else 10 ∷ rest) else c ∷ rest

unfoldable pub skip_while : (ℕ → Bool) → Text → Text
skip_while p [] = []
skip_while p (c ∷ s) = let rest = skip_while p s in if p c then rest else c ∷ s

-- `[0-?]*[ -/]*[@-~]`, where it matches.
unfoldable pub csi : Text → Option Text
unfolding skip_while
csi s =
    elim (skip_while (λ c. leb 0x20 c && leb c 0x2f)
      (skip_while (λ c. leb 0x30 c && leb c 0x3f) s)) [
        | [] ↦ none
        | c ∷ rest ↦ if leb 0x40 c && leb c 0x7e then some rest else none
      ]

-- `[P\]X^_]`.
unfoldable pub is_string_opener : ℕ → Bool
is_string_opener c = c == b'P' || c == b']' || c == b'X' || c == b'^' || c == b'_'

-- `(?:\x07|\x1b\\)?`, behind `[^\x07\x1b]*`.
unfoldable pub string_close : Text → Text
string_close [] = []
string_close (c ∷ []) = if c == 7 then [] else c ∷ []
string_close (c ∷ d ∷ s) = if c == 7 then d ∷ s else if c == 27 && d == 92 then s else c ∷ d ∷ s

-- The text behind an escape character, if `escapes` matches there.
unfoldable pub escape : Text → Option Text
unfolding csi is_string_opener string_close
escape [] = none
escape (c ∷ s) =
    if c == b'['
    then csi s
    else if is_string_opener c
    then some (string_close (skip_while (λ d. not (d == 7 || d == 27)) s))
    else none

-- escapes.ReplaceAllString(s, ""); the length of the text is fuel enough.
unfoldable pub strip_from : ℕ → Text → Text
unfolding escape
strip_from zero s = []
strip_from (suc fuel) [] = []
strip_from (suc fuel) (c ∷ s) =
    let keep = c ∷ strip_from fuel s in
    if c == 27 then (elim (escape s) [ none ↦ keep | some rest ↦ strip_from fuel rest ]) else keep

unfoldable pub drop_controls : Text → Text
unfolding is_control
drop_controls [] = []
drop_controls (c ∷ s) =
    let rest = drop_controls s in
    if is_control c && not (c == 10) && not (c == 9) then rest else c ∷ rest

-- plain.
unfoldable pub plain : Text → Text
unfolding line_ends strip_from drop_controls
plain s = let t = line_ends s in drop_controls (strip_from (length t) t)

-- strings.TrimRight(s, "\n").
unfoldable pub trim_newlines : Text → Text
trim_newlines [] = []
trim_newlines (c ∷ s) = elim (trim_newlines s) [
  | [] ↦ if c == 10 then [] else c ∷ []
  | d ∷ t ↦ c ∷ d ∷ t
]

-- The lines of a text block, indented but for the empty ones: strings.Split and the loop over it.
-- `fresh` says that a line begins.
unfoldable pub indent : Bool → Text → Text
indent fresh [] = 10 ∷ []
indent true (c ∷ s) =
    let next = indent true s in
    let on = indent false s in if c == 10 then 10 ∷ next else 32 ∷ 32 ∷ c ∷ on
indent false (c ∷ s) =
    let next = indent true s in let on = indent false s in if c == 10 then 10 ∷ next else c ∷ on

abbrev pub render_rows : (ℕ → Bool) → List (List Text) → Text
render_rows table [] = []
render_rows table (r ∷ rs) = 32 ∷ 32 ∷ (row table r ++ 10 ∷ render_rows table rs)

abbrev pub render_items : List Text → Text
render_items [] = []
render_items (i ∷ is) = codes "  - " ++ (one_line i ++ 10 ∷ render_items is)

abbrev pub render_text : Text → Text → Text
render_text name [] = name ++ codes ": \"\"\n"
render_text name (c ∷ s) = name ++ (codes ": |\n" ++ indent true (c ∷ s))

-- One round of the loop of Render.
unfoldable pub render_block : (ℕ → Bool) → Block → Text
unfolding value row one_line plain trim_newlines indent decimal join
render_block table (field name v) = name ++ (codes ": " ++ (value table v ++ 10 ∷ []))
render_block table (text name v) = render_text name (trim_newlines (plain v))
render_block table (rows name fields rs) =
    name
    ++ (91
        ∷ (decimal (length rs)
            ++ (codes "]{" ++ (join (44 ∷ []) fields ++ (codes "}:\n" ++ render_rows table rs)))))
render_block table (items name is) =
    name ++ (91 ∷ (decimal (length is) ++ (codes "]:\n" ++ render_items is)))

-- Doc.Render, without the write.
unfoldable pub render : (ℕ → Bool) → Doc → Text
unfolding render_block
render table [] = []
render table (b ∷ d) = render_block table b ++ render table d
