-- ===== src/Markdown/Scenarios.antt =====
-- The theorem on internal/markdown/markdown.go, tried on a page, and runs.
use hand.Base.{
  Text, byte_len, codes, contains_text, decimal, decimal_from, ends_with, fields, has_line_break,
  index, is_control, is_space, join, not, one_line, refl, rune_len, some, starts_with, text_eq,
  trim_left, trim_right, trim_space, true, words_from, ℕ, ◌++◌, ◌||◌, ◌≡◌,
}
use hand.Markdown.Escape.{escape, escape_char}
use hand.Markdown.Places.{
  digits, ends_ref, has_char, is_digit, is_drive, is_letter, is_rooted, is_word, path_like,
  path_tail, ref_of, rel_like, split_by, token, token_chars, trim_stops,
}
use hand.Markdown.Ends.{closing, closing_from, link_parts, pair_end}
use hand.Markdown.Scan.{
  Opts, Urls, emphasis_at, is_behind, link_at, mark_emphasis, mark_file, mark_link, mark_of,
  mark_picture, mark_ref, mark_stars, mark_tick, mark_tildes, mark_web, marker, pair_at, path,
  picture_at, ref_at, room, tick_at,
}
use hand.Markdown.Inline.{inline, inline_from}
use hand.Markdown.Lines.{
  all_are, cells, dashes, dedent, hashes, heading, indent_of, is_align, is_fence, is_inner, is_rule,
  is_rule_of, item, kind_of, least_indent, numeric_column, numeric_from, plain_bars, split_cells,
  starts, table_at, task, trim_bars,
}
use hand.Markdown.Writer.{joined, split_fence, split_paragraph, split_while, unquoted}
use hand.Markdown.Tables.{cell, class_of, classes, fit, write_cells, write_rows, write_table}
use hand.Markdown.Lists.{flat, item_at, items_from, list_head, number, write_item, write_list}
use hand.Markdown.Blocks.{block_at, blocks_from, is_row, render, split_lines, table_from}
use hand.Markdown.Html.{Html}
use hand.Markdown.Page.{render-Html}

abbrev urls : Urls
urls = record {
  is_safe = λ u. starts_with (codes "https://") u;
  is_relative = λ u. not (starts_with (codes "/") u || starts_with (codes "https://") u);
  spelled = λ u. u;
}

abbrev opts : Opts
opts = record { refs = codes "/f/ref/"; doc = true; local = some (λ p. codes "/open?p=" ++ p) }

abbrev text : Text
text = codes "# A <b>\n\n- [x] **see** t1\n> `a/b` & [x](https://y)"

page :
    render urls opts text
    ≡ some (
      codes
          "<h3>A &lt;b&gt;</h3><ul><li class=\"task done\"><span class=\"sr\">done: </span><strong>see</strong> <a class=\"ref\" href=\"/f/ref/t1\">t1</a></li></ul><blockquote><p><a class=\"path\" href=\"/open?p=a/b\" target=\"_blank\" rel=\"noopener\"><code>a/b</code></a> &amp; <a href=\"https://y\" target=\"_blank\" rel=\"noopener noreferrer\">x</a></p></blockquote>",
      49,
    )
unfolding escape_char escape is_word is_digit is_letter has_char split_by path_tail is_drive
    is_rooted path_like rel_like token_chars trim_stops token digits ends_ref ref_of closing_from
    closing pair_end link_parts room path is_behind mark_of tick_at mark_tick pair_at mark_tildes
    mark_stars emphasis_at mark_emphasis picture_at mark_picture link_at mark_link mark_web
    mark_file ref_at mark_ref marker inline_from inline is_fence all_are is_rule_of is_rule hashes
    heading item task plain_bars split_cells trim_bars cells dashes is_align table_at numeric_from
    numeric_column indent_of least_indent dedent is_inner kind_of starts joined split_fence
    split_while split_paragraph unquoted class_of classes cell write_cells write_rows fit
    write_table flat item_at write_item items_from number list_head write_list is_row table_from
    block_at blocks_from split_lines render text_eq contains_text is_space is_control trim_left
    trim_right trim_space has_line_break rune_len byte_len starts_with ends_with decimal_from
    decimal words_from fields join one_line index
page = refl

render-Html_example :
    (out : Text) × (left : ℕ) × (render urls opts text ≡ some (out, left)) × Html out
render-Html_example = render-Html urls opts text
