-- ===== src/Markdown/Lines.antt =====
-- internal/markdown/markdown.go: what kind of block a line begins.
use hand.Base.{
  Bool, List, Option, Text, [], codes, drop, ends_with, exists_where, false, if◌then◌else◌,
  is_empty, leb, length, ltb, map, none, not, select, some, starts_with, suc, take, trim_space,
  true, zero, ℕ, ◌&&◌, ◌+◌, ◌-◌, ◌==◌, ◌||◌, ◌∷◌,
}
use hand.Markdown.Places.{digits, has_char, is_digit}

abbrev pub is_blank : Text → Bool
is_blank line = is_empty (trim_space line)

-- fence.
unfoldable pub is_fence : Text → Bool
unfolding starts_with trim_space
is_fence line = starts_with (codes "```") (trim_space line)

unfoldable pub all_are : ℕ → Text → Bool
all_are c [] = true
all_are c (d ∷ s) = d == c && all_are c s

-- The conditions of rule, on a line without its spaces.
unfoldable pub is_rule_of : Text → Bool
unfolding has_char all_are
is_rule_of [] = false
is_rule_of (c ∷ s) = leb 3 (length (c ∷ s)) && all_are c s && has_char (codes "-*_") c

-- rule.
unfoldable pub is_rule : Text → Bool
unfolding is_rule_of trim_space
is_rule line = is_rule_of (select (λ c. not (c == 32)) (trim_space line))

-- How many characters `#` a text begins with.
unfoldable pub hashes : Text → ℕ
hashes [] = 0
hashes (c ∷ s) = let n = hashes s in if c == b'#' then suc n else 0

-- heading.
unfoldable pub heading : Text → ℕ
unfolding hashes starts_with
heading line =
    let n = hashes line in
    if n == 0 || ltb 6 n || not (starts_with (codes " ") (drop n line)) then 0 else n

-- item: an empty text where the line begins none.
unfoldable pub item : Bool → Text → Text
unfolding starts_with digits
item false line =
    if starts_with (codes "- ") line || starts_with (codes "* ") line then drop 2 line else []
item true line =
    let n = length (digits line) in
    if ltb 0 n && starts_with (codes ". ") (drop n line) then drop (n + 2) line else []

-- task: whether it is done, and the text.
unfoldable pub task : Text → Option (Bool × Text)
task (a ∷ b ∷ c ∷ d ∷ s) =
    if not (a == b'[') || not (c == b']') || not (d == 32)
    then none
    else if b == 32
    then some (false, s)
    else if b == b'x' || b == b'X'
    then some (true, s)
    else none
task s = none

-- The class and the label that task gives.
abbrev pub task_class : Bool → Text
task_class false = codes "task"
task_class true = codes "task done"

abbrev pub task_label : Bool → Text
task_label false = codes "to do: "
task_label true = codes "done: "

-- strings.ReplaceAll(c, "\\|", "|").
unfoldable pub plain_bars : Text → Text
plain_bars [] = []
plain_bars (c ∷ []) = c ∷ []
plain_bars (c ∷ d ∷ s) =
    let here = b'|' ∷ plain_bars s in
    let on = c ∷ plain_bars (d ∷ s) in if c == 92 && d == b'|' then here else on

-- A line cut at the bars that no backslash stands before; `slash` says whether one does.
unfoldable pub split_cells : Bool → Text → List Text
split_cells slash [] = [] ∷ []
split_cells slash (c ∷ s) =
    let bar = c == b'|' && not slash in
    elim (split_cells (c == 92) s) [ [] ↦ [] | w ∷ ws ↦ if bar then [] ∷ w ∷ ws else (c ∷ w) ∷ ws ]

unfoldable pub trim_bars : Text → Text
unfolding starts_with ends_with
trim_bars s =
    let t = if starts_with (codes "|") s then drop 1 s else s in
    if ends_with (codes "|") t && not (ends_with (codes "\\|") t) then take (length t - 1) t else t

-- cells.
unfoldable pub cells : Text → List Text
unfolding trim_bars trim_space split_cells plain_bars
cells line = map (λ c. plain_bars (trim_space c)) (split_cells false (trim_bars (trim_space line)))

-- `-+:?$`, behind the first `:?` of align; `seen` once a dash was read.
unfoldable pub dashes : Bool → Text → Bool
dashes seen [] = seen
dashes seen (c ∷ s) =
    let on = dashes true s in if c == b'-' then on else seen && c == b':' && is_empty s

-- align.
unfoldable pub is_align : Text → Bool
unfolding dashes
is_align [] = false
is_align (c ∷ s) = if c == b':' then dashes false s else dashes false (c ∷ s)

-- tableAt.
unfoldable pub table_at : List Text → Bool
unfolding has_char cells is_align
table_at [] = false
table_at (l ∷ []) = false
table_at (l ∷ d ∷ ls) =
    has_char l b'|'
    && not (exists_where (λ c. not (is_align c)) (cells d))
    && length (cells d) == length (cells l)

-- numeric.
unfoldable pub numeric_from : Bool → Text → Bool
unfolding has_char is_digit
numeric_from digit [] = digit
numeric_from digit (c ∷ s) =
    let on = numeric_from (digit || is_digit c) s in
    if is_digit c || has_char (codes "*_ .,%kKMx×~≈<>+-–—→") c then on else false

abbrev pub nth : ℕ → List Text → Text
nth k [] = []
nth zero (w ∷ ws) = w
nth (suc k) (w ∷ ws) = nth k ws

-- numericColumn.
unfoldable pub numeric_column : ℕ → List (List Text) → Bool
unfolding numeric_from
numeric_column k rows =
    let column = select (λ c. not (is_empty c)) (map (λ row. nth k row) rows) in
    not (length column == 0) && not (exists_where (λ c. not (numeric_from false c)) column)

-- How many blanks and tabs a text begins with.
unfoldable pub indent_of : Text → ℕ
indent_of [] = 0
indent_of (c ∷ s) = let n = indent_of s in if c == 32 || c == 9 then suc n else 0

unfoldable pub least_indent : List Text → Option ℕ
unfolding indent_of trim_space
least_indent [] = none
least_indent (l ∷ ls) = if is_blank l then least_indent ls else elim (least_indent ls) [
  | none ↦ some (indent_of l)
  | some n ↦ some (if ltb n (indent_of l) then n else indent_of l)
]

-- dedent.
unfoldable pub dedent : List Text → List Text
unfolding least_indent trim_space
dedent lines =
    let cut : ℕ = elim (least_indent lines) [ none ↦ 0 | some n ↦ n ] in
    map (λ l. if is_blank l then [] else drop cut l) lines

-- Does a line belong to the item above it?
unfoldable pub is_inner : Text → Bool
unfolding trim_space
is_inner [] = true
is_inner (c ∷ s) = is_blank (c ∷ s) || c == 32 || c == 9

-- The kinds of blocks.
pub data Kind : Type 0 where
  blank : Kind
  fenced : Kind
  rule : Kind
  title : Kind
  quote : Kind
  table : Kind
  bullets : Kind
  numbers : Kind
  paragraph : Kind

-- The cases of the switch in blocks, for the line `l` with the lines `ls` below it.
unfoldable pub kind_of : Bool → Text → List Text → Kind
unfolding trim_space is_fence is_rule heading starts_with table_at item
kind_of quotes l ls =
    if is_blank l
    then Kind.blank
    else if is_fence l
    then Kind.fenced
    else if is_rule l
    then Kind.rule
    else if ltb 0 (heading l)
    then Kind.title
    else if quotes && starts_with (codes ">") l
    then Kind.quote
    else if table_at (l ∷ ls)
    then Kind.table
    else if not (is_empty (item false l))
    then Kind.bullets
    else if not (is_empty (item true l))
    then Kind.numbers
    else Kind.paragraph

-- starts: whether a line begins another block than a paragraph.
unfoldable pub starts : Bool → Text → List Text → Bool
unfolding is_fence is_rule heading starts_with table_at item
starts quotes l ls =
    is_fence l
    || is_rule l
    || ltb 0 (heading l)
    || (quotes && starts_with (codes ">") l)
    || table_at (l ∷ ls)
    || not (is_empty (item false l))
    || not (is_empty (item true l))
