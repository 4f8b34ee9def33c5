-- ===== src/Samples.antt =====
-- The theorems on internal/toon and internal/harness, tried.
use hand.Base.{
  All, Bool, List, Text, [], arith, codes, err, false, invalid, join, length, ok, refl, some, suc,
  true, ℕ, ◌*◌, ◌<◌, ◌^◌, ◌↔◌, ◌∷◌, ◌≡◌, ◌≢◌,
}
use hand.Toon.{Place, shell_quote, shell_read, shell_read-shell_quote}
use hand.Toon.Values.{read_row, row}
use hand.Toon.Reading.{read_row-row}
use hand.Toon.Render.{Doc, render}
use hand.Toon.Lines.{IsNamed, doc_lines, newlines, newlines-render}
use hand.Toon.Render.{field, text, rows, items}
use hand.Harness.{Stall, delay, delay-min}
use hand.Harness.CommandLine.{
  check_command_line, check_command_line_iff, command_line, command_line_len,
  command_line_len-command_line, quote_arg, read_arg, utf16,
}
use Prim.Native.Nat.{min}

shell_read-shell_quote_example :
    shell_read Place.outside (shell_quote (codes "it's")) ≡ some (codes "it's")
shell_read-shell_quote_example = shell_read-shell_quote (codes "it's")

abbrev stall : Stall
stall = record { off = false; after = 20; every = 60 }

stall_delays : (delay stall 0 ≡ 20) × (delay stall 1 ≡ 40) × (delay stall 2 ≡ 60)
unfolding delay
stall_delays = (refl, refl, refl)

delay-min_example : (delay stall 0 ≡ 20) × ((n : ℕ) → delay stall (suc n) ≡ min (2 ^ suc n * 20) 60)
delay-min_example = delay-min stall

abbrev quoted_argv : List Text
quoted_argv = codes "hand" ∷ codes "say \"hi\"" ∷ []

quoted_line : command_line quoted_argv ≡ codes "hand \"say \\\"hi\\\"\""
unfolding command_line
quoted_line = refl

command_line_len-command_line_example :
    (command_line_len quoted_argv ≡ length (command_line quoted_argv))
    × ((a : Text) → read_arg false 0 (quote_arg (utf16 a)) ≡ some (utf16 a))
command_line_len-command_line_example = command_line_len-command_line quoted_argv

check_command_line_iff_example :
    ((check_command_line true quoted_argv ≡ err invalid)
      ↔ ((◌≡◌ {A = Bool} true true) × (32766 < length (command_line quoted_argv))))
    × ((check_command_line true quoted_argv ≢ err invalid)
        → check_command_line true quoted_argv ≡ ok tt)
check_command_line_iff_example = check_command_line_iff true quoted_argv

abbrev nothing_prints : ℕ → Bool
nothing_prints c = false

abbrev cells : List Text
cells = codes "a,b" ∷ codes "" ∷ codes "plain" ∷ codes "say \"é\"" ∷ []

cells-row : row nothing_prints cells ≡ codes "\"a,b\",\"\",plain,\"say \\\"\\u00e9\\\"\""
unfolding row
cells-row = refl

read_row-row_example : read_row (row nothing_prints cells) ≡ some cells
read_row-row_example = read_row-row nothing_prints cells (omega arith)

abbrev doc : Doc
doc =
    field (codes "task") (codes "t1\nt2")
    ∷ rows (codes "attempts") (codes "id" ∷ codes "note" ∷ [])
        ((codes "a1" ∷ codes "x\ny" ∷ []) ∷ [])
    ∷ text (codes "goal") (codes "one\ntwo\n")
    ∷ items (codes "help") (codes "hand  wait" ∷ [])
    ∷ []

doc_text :
    render nothing_prints doc
    ≡ codes
        "task: \"t1\\nt2\"\nattempts[1]{id,note}:\n  a1,\"x\\ny\"\ngoal: |\n  one\n  two\nhelp[1]:\n  - hand wait\n"
unfolding render
doc_text = refl

doc-IsNamed : All IsNamed doc
unfolding join
doc-IsNamed = (refl, ((refl, refl), (refl, (refl, tt))))

newlines-render_example : newlines (render nothing_prints doc) ≡ doc_lines doc
newlines-render_example = newlines-render nothing_prints doc doc-IsNamed
