-- ===== src/Markdown/Pieces.antt =====
-- internal/markdown/markdown.go: the parts of a page end and are HTML.
use hand.Base.{
  Bool, Bool-cases, List, Text, [], append_assoc, codes, contains_text, ends_with, false,
  if◌then◌else◌, inl, inr, is_empty, length, map, refl, some, starts_with, suc, text_eq, true, zero,
  ℕ, ◌&&◌, ◌++◌, ◌∷◌, ◌≡◌,
}
use hand.Markdown.Escape.{escape, escape_char}
use hand.Markdown.Scan.{Opts, Urls}
use hand.Markdown.Lines.{cells, nth, numeric_column}
use hand.Markdown.Writer.{Written, and_then, joined, within, wrap}
use hand.Markdown.Tables.{cell, class_of, classes, fit, write_cells, write_rows, write_table}
use hand.Markdown.Html.{
  Html, are_known, attribute_names, attributes, element_names, empty, tag, void, void_names,
}
use hand.Markdown.Writing.{Html-append, Html-element}
use hand.Markdown.Marks.{Html-bare, Returns}
use hand.Markdown.Safe.{inline-Html}

pub nothing-Returns : (left : ℕ) → Returns (some ([], left))
nothing-Returns left = ([], left, refl, empty)

pub and_then-Returns :
    (w : Written) (f : ℕ → Written)
    → Returns w
    → ((left : ℕ) → Returns (f left))
    → Returns (and_then w f)
and_then-Returns w f (out, left, e, h) k =
    let (more, left', e', h') = k left in (out ++ more, left', rw (e, e') refl, Html-append h h')

pub wrap-Returns :
    (head foot : Text) (w : Written)
    → ((out : Text) → Html out → Html (head ++ (out ++ foot)))
    → Returns w
    → Returns (wrap head foot w)
wrap-Returns head foot w k (out, left, e, h) = (head ++ (out ++ foot), left, rw e refl, k out h)

pub within-Returns :
    (name : Text) (w : Written)
    → contains_text element_names name ≡ true
    → Returns w
    → Returns (within name w)
within-Returns name w n h =
    wrap-Returns (b'<' ∷ (name ++ codes ">")) (codes "</" ++ (name ++ codes ">")) w
      (λ out k. Html-bare name out n k) h

pub joined-Returns :
    (urls : Urls) (o : Opts) (left : ℕ) (ls : List Text) → Returns (joined urls o left ls)
unfolding joined tag attributes void_names are_known contains_text text_eq
joined-Returns urls o left [] = nothing-Returns left
joined-Returns urls o left (l ∷ []) = inline-Html urls true o left l
joined-Returns urls o left (l ∷ k ∷ ls) =
    and_then-Returns _ _ (inline-Html urls true o left l) (λ left'.
      and_then-Returns _ _ (codes "<br>", left', refl, void (codes "br") [] refl refl refl empty)
        (λ left''. joined-Returns urls o left'' (k ∷ ls)))

Html-class :
    (name class text : Text)
    → contains_text element_names name ≡ true
    → escape class ≡ class
    → Html text
    → Html (
        (b'<' ∷ (name ++ (codes " class=\"" ++ (class ++ codes "\">"))))
        ++ (text ++ (codes "</" ++ (name ++ codes ">"))))
unfolding tag attributes attribute_names are_known contains_text text_eq
Html-class name class text n e h =
    Html-element name ((codes "class", class) ∷ []) text _ n refl (rw e (simp (append_assoc) refl))
      h

-- A text that is written as it is.
pub data Inert : Text → Type 0 where
  inert : {s : Text} → escape s ≡ s → Inert s

align_class-Inert :
    (a b c d : Bool)
    → Inert (
        if a
        then codes "c"
        else if b
        then codes "r"
        else if c
        then codes "l"
        else if d
        then codes "r"
        else [])
unfolding escape escape_char
align_class-Inert true b c d = inert refl
align_class-Inert false true c d = inert refl
align_class-Inert false false true d = inert refl
align_class-Inert false false false true = inert refl
align_class-Inert false false false false = inert refl

class_of-Inert : (k : ℕ) (rows : List (List Text)) (d : Text) → Inert (class_of k rows d)
unfolding class_of
class_of-Inert k rows d =
    align_class-Inert (starts_with (codes ":") d && ends_with (codes ":") d)
      (ends_with (codes ":") d) (starts_with (codes ":") d) (numeric_column k rows)

nth-classes-Inert :
    (j k : ℕ) (rows : List (List Text)) (ds : List Text) → Inert (nth j (classes k rows ds))
unfolding classes escape
nth-classes-Inert zero k rows [] = inert refl
nth-classes-Inert (suc j) k rows [] = inert refl
nth-classes-Inert zero k rows (d ∷ ds) = class_of-Inert k rows d
nth-classes-Inert (suc j) k rows (d ∷ ds) = nth-classes-Inert j (suc k) rows ds

cell-Returns :
    (urls : Urls) (o : Opts) (name class : Text) (left : ℕ) (text : Text)
    → contains_text element_names name ≡ true
    → Inert class
    → Returns (cell urls o name class left text)
unfolding cell
cell-Returns urls o name class left text n (inert e) = elim (Bool-cases (is_empty class)) [
  | inl q ↦ rw q (within-Returns name _ n (inline-Html urls true o left text))
  | inr q ↦ rw q (
      wrap-Returns (b'<' ∷ (name ++ (codes " class=\"" ++ (class ++ codes "\">"))))
        (codes "</" ++ (name ++ codes ">")) _ (λ out h. Html-class name class out n e h)
        (inline-Html urls true o left text))
]

cells-Returns :
    (urls : Urls) (o : Opts) (name : Text) (cs : List Text) (k left : ℕ) (ws : List Text)
    → contains_text element_names name ≡ true
    → ((j : ℕ) → Inert (nth j cs))
    → Returns (write_cells urls o name cs k left ws)
unfolding write_cells
cells-Returns urls o name cs k left [] n e = nothing-Returns left
cells-Returns urls o name cs k left (w ∷ ws) n e =
    and_then-Returns _ _ (cell-Returns urls o name (nth k cs) left w n (e k))
      (λ left'. cells-Returns urls o name cs (suc k) left' ws n e)

rows-Returns :
    (urls : Urls) (o : Opts) (cs : List Text) (left : ℕ) (rs : List (List Text))
    → ((j : ℕ) → Inert (nth j cs))
    → Returns (write_rows urls o cs left rs)
unfolding write_rows element_names contains_text text_eq
rows-Returns urls o cs left [] e = nothing-Returns left
rows-Returns urls o cs left (r ∷ rs) e =
    and_then-Returns _ _
      (within-Returns (codes "tr") _ refl (cells-Returns urls o (codes "td") cs 0 left r refl e))
      (λ left'. rows-Returns urls o cs left' rs e)

pub table-Returns :
    (urls : Urls) (o : Opts) (left : ℕ) (l d : Text) (lines : List Text)
    → Returns (write_table urls o left l d lines)
unfolding write_table element_names attribute_names are_known contains_text text_eq tag attributes
    escape escape_char
table-Returns urls o left l d lines =
    let rows = map (λ row. fit (length (cells l)) (cells row)) lines in
    let cs = classes 0 rows (cells d) in
    let fixed = λ (j : ℕ). nth-classes-Inert j 0 rows (cells d) in
    wrap-Returns (codes "<div class=\"table\" role=\"region\" aria-label=\"Table\" tabindex=\"0\">")
      (codes "</div>") _
      (λ out h.
        Html-element (codes "div")
          ((codes "class", codes "table")
            ∷ (codes "role", codes "region")
            ∷ (codes "aria-label", codes "Table")
            ∷ (codes "tabindex", codes "0")
            ∷ [])
          out _ refl refl refl h)
      (within-Returns (codes "table") _ refl (
        and_then-Returns _ _
          (within-Returns (codes "thead") _ refl (
            within-Returns (codes "tr") _ refl
              (cells-Returns urls o (codes "th") cs 0 left (cells l) refl fixed)))
          (λ left'.
            within-Returns (codes "tbody") _ refl (rows-Returns urls o cs left' rows fixed))))
