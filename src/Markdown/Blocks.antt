-- ===== src/Markdown/Blocks.antt =====
-- internal/markdown/markdown.go: blocks, which writes a page, and Render.
use hand.Base.{
  Bool, List, Text, [], codes, drop, false, if◌then◌else◌, join, length, ltb, map, none, not, some,
  starts_with, suc, trim_space, true, zero, ℕ, ◌&&◌, ◌++◌, ◌==◌, ◌||◌, ◌∷◌,
}
use hand.Markdown.Escape.{escape}
use hand.Markdown.Places.{has_char}
use hand.Markdown.Scan.{Opts, Urls}
use hand.Markdown.Inline.{after_round, inline}
use hand.Markdown.Lines.{
  Kind, blank, bullets, fenced, heading, is_blank, is_fence, kind_of, numbers, paragraph, quote,
  rule, table, title,
}
use hand.Markdown.Writer.{
  Taken, Written, and_rest, joined, split_fence, split_paragraph, split_while, unquoted, within,
}
use hand.Markdown.Tables.{write_table}
use hand.Markdown.Lists.{Inner, flat, write_list}

-- The rows of a table end here.
unfoldable pub is_row : Text → Bool
unfolding trim_space has_char is_fence
is_row l = not (is_blank l) && has_char l b'|' && not (is_fence l)

unfoldable pub table_from : Urls → Opts → ℕ → Text → List Text → Taken
unfolding write_table split_while is_row
table_from urls o left l [] = some ([], left, [])
table_from urls o left l (d ∷ ls) =
    let (rows, rest) = split_while is_row ls in and_rest rest (write_table urls o left l d rows)

-- One block that begins with the line `l`; `inner` writes what stands in an item, and `quoted` in a quotation.
unfoldable pub block_at : Urls → Opts → Inner → Inner → Bool → ℕ → Text → List Text → Kind → Taken
unfolding split_fence heading inline trim_space split_while unquoted table_from write_list
    split_paragraph joined starts_with escape
block_at urls o quoted inner quotes left l ls blank = some ([], left, ls)
block_at urls o quoted inner quotes left l ls fenced =
    let (code, rest) = split_fence ls in
    some
      (codes "<pre><code>" ++ (escape (join (10 ∷ []) code) ++ codes "</code></pre>"), left, rest)
block_at urls o quoted inner quotes left l ls rule = some (codes "<hr>", left, ls)
block_at urls o quoted inner quotes left l ls title =
    let text = trim_space (drop (heading l) l) in
    and_rest ls
      (within (if ltb 2 (heading l) then codes "h4" else codes "h3") (inline urls true o left text))
block_at urls o quoted inner quotes left l ls quote =
    let (more, rest) = split_while (λ k. starts_with (codes ">") k) ls in
    and_rest rest (within (codes "blockquote") (quoted left (map unquoted (l ∷ more))))
block_at urls o quoted inner quotes left l ls table = table_from urls o left l ls
block_at urls o quoted inner quotes left l ls bullets = write_list urls o inner false left l ls
block_at urls o quoted inner quotes left l ls numbers = write_list urls o inner true left l ls
block_at urls o quoted inner quotes left l ls paragraph =
    let (part, rest) = split_paragraph quotes ls in
    and_rest rest (within (codes "p") (joined urls o left (l ∷ part)))

abbrev pub and_blocks : Taken → (ℕ → List Text → Written) → Written
and_blocks none f = none
and_blocks (some (out, left, rest)) f = after_round out (f left rest)

-- blocks, at a depth of lists.
unfoldable pub blocks_from : Urls → Opts → ℕ → Bool → ℕ → ℕ → List Text → Written
unfolding block_at kind_of flat
blocks_from urls o zero quotes depth left lines = none
blocks_from urls o (suc fuel) quotes depth left [] = some ([], left)
blocks_from urls o (suc fuel) quotes depth left (l ∷ ls) =
    let deeper =
      λ (left' : ℕ) (lines : List Text). blocks_from urls o fuel false (suc depth) left' lines in
    and_blocks
      (block_at urls o (λ left' lines. blocks_from urls o fuel false depth left' lines)
        (λ left' lines. if ltb (suc depth) 6 then deeper left' lines else flat urls o left' lines)
        quotes left l ls (kind_of quotes l ls))
      (λ left' rest. blocks_from urls o fuel quotes depth left' rest)

-- strings.Split(s, "\n") once "\r\n" and "\r" are line breaks.
unfoldable pub split_lines : Text → List Text
split_lines [] = [] ∷ []
split_lines (c ∷ []) = if c == 10 || c == 13 then [] ∷ [] ∷ [] else (c ∷ []) ∷ []
split_lines (c ∷ d ∷ s) =
    let skip = [] ∷ split_lines s in
    let line = split_lines (d ∷ s) in
    if c == 13 && d == 10
    then skip
    else if c == 10 || c == 13
    then [] ∷ line
    else elim line [ [] ↦ [] | w ∷ ws ↦ (c ∷ w) ∷ ws ]

abbrev pub max_paths : ℕ
max_paths = 50

-- render without titles: Render, and RenderRefs and RenderDoc where `title` is nil.
unfoldable pub render : Urls → Opts → Text → Written
unfolding blocks_from split_lines
render urls o text =
    let lines = split_lines text in
    blocks_from urls o (suc (suc (length lines))) true 0 max_paths lines
