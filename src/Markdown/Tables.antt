-- ===== src/Markdown/Tables.antt =====
-- internal/markdown/markdown.go: table, cell and their columns.
use hand.Base.{
  List, Text, [], codes, ends_with, if◌then◌else◌, is_empty, length, map, some, starts_with, suc,
  true, zero, ℕ, ◌&&◌, ◌++◌, ◌∷◌,
}
use hand.Markdown.Scan.{Opts, Urls}
use hand.Markdown.Inline.{inline}
use hand.Markdown.Lines.{cells, nth, numeric_column}
use hand.Markdown.Writer.{Written, and_then, within, wrap}

unfoldable pub class_of : ℕ → List (List Text) → Text → Text
unfolding starts_with ends_with numeric_column
class_of k rows d =
    let head = starts_with (codes ":") d in
    let foot = ends_with (codes ":") d in
    if head && foot
    then codes "c"
    else if foot
    then codes "r"
    else if head
    then codes "l"
    else if numeric_column k rows
    then codes "r"
    else []

unfoldable pub classes : ℕ → List (List Text) → List Text → List Text
unfolding class_of
classes k rows [] = []
classes k rows (d ∷ ds) = class_of k rows d ∷ classes (suc k) rows ds

-- cell.
unfoldable pub cell : Urls → Opts → Text → Text → ℕ → Text → Written
unfolding inline
cell urls o name class left text =
    wrap
      (if is_empty class
        then b'<' ∷ (name ++ codes ">")
        else b'<' ∷ (name ++ (codes " class=\"" ++ (class ++ codes "\">"))))
      (codes "</" ++ (name ++ codes ">")) (inline urls true o left text)

-- A row; `k` is the column.
unfoldable pub write_cells : Urls → Opts → Text → List Text → ℕ → ℕ → List Text → Written
unfolding cell
write_cells urls o name cs k left [] = some ([], left)
write_cells urls o name cs k left (w ∷ ws) =
    and_then (cell urls o name (nth k cs) left w)
      (λ left'. write_cells urls o name cs (suc k) left' ws)

unfoldable pub write_rows : Urls → Opts → List Text → ℕ → List (List Text) → Written
unfolding write_cells
write_rows urls o cs left [] = some ([], left)
write_rows urls o cs left (r ∷ rs) =
    and_then (within (codes "tr") (write_cells urls o (codes "td") cs 0 left r))
      (λ left'. write_rows urls o cs left' rs)

-- A row of `n` cells.
unfoldable pub fit : ℕ → List Text → List Text
fit zero ws = []
fit (suc n) [] = [] ∷ fit n []
fit (suc n) (w ∷ ws) = w ∷ fit n ws

-- table, on its first line, its second and its rows.
unfoldable pub write_table : Urls → Opts → ℕ → Text → Text → List Text → Written
unfolding cells fit classes write_cells write_rows
write_table urls o left l d lines =
    let head = cells l in
    let rows = map (λ row. fit (length head) (cells row)) lines in
    let cs = classes 0 rows (cells d) in
    wrap (codes "<div class=\"table\" role=\"region\" aria-label=\"Table\" tabindex=\"0\">")
      (codes "</div>")
      (within (codes "table") (
        and_then
          (within (codes "thead")
            (within (codes "tr") (write_cells urls o (codes "th") cs 0 left head)))
          (λ left'. within (codes "tbody") (write_rows urls o cs left' rows))))
