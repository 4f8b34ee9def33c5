-- ===== src/Markdown/Page.antt =====
-- internal/markdown/markdown.go: Render ends, and the page is HTML.
use hand.Base.{
  Bool, Bool-cases, List, Text, [], append_assoc, arith, codes, contains_text, drop, false,
  if◌then◌else◌, inl, inr, is_empty, join, length, ltb, map, not, refl, select, some, starts_with,
  subst, suc, text_eq, trim_space, true, zero, ℕ, ◌&&◌, ◌++◌, ◌<◌, ◌==◌, ◌∷◌, ◌≡◌, ◌≤◌,
}
use hand.Markdown.Escape.{escape}
use hand.Markdown.Scan.{Opts, Urls}
use hand.Markdown.Lines.{
  Kind, blank, bullets, fenced, heading, is_blank, is_fence, is_rule, item, kind_of, numbers,
  paragraph, quote, rule, table, table_at, title,
}
use hand.Markdown.Writer.{
  Taken, Written, split_fence, split_paragraph, split_while, unquoted, within,
}
use hand.Markdown.Lists.{Inner, flat}
use hand.Markdown.Blocks.{
  and_blocks, block_at, blocks_from, is_row, max_paths, render, split_lines, table_from,
}
use hand.Markdown.Html.{Html, are_known, attributes, element_names, empty, tag, void, void_names}
use hand.Markdown.Writing.{Html-append, Html-escape}
use hand.Markdown.Marks.{Html-bare, Returns}
use hand.Markdown.Safe.{inline-Html}
use hand.Markdown.Pieces.{joined-Returns, nothing-Returns, table-Returns, within-Returns}
use hand.Markdown.Items.{
  Takes, and_rest-Takes, length-map, list-Takes, split_fence_le, split_paragraph_le, split_while_le,
  split_while_le_inner,
}

-- What the switch in blocks has tested of the line `l`.
abbrev Tested : Bool → Text → Kind → Type 0
Tested quotes l quote = quotes ≡ true
Tested quotes l bullets = is_empty (item false l) ≡ false
Tested quotes l numbers = is_empty (item true l) ≡ false
Tested quotes l k = Unit {0}

Tested-if :
    (quotes : Bool) (l : Text) (b : Bool) (x y : Kind)
    → (b ≡ true → Tested quotes l x)
    → Tested quotes l y
    → Tested quotes l (if b then x else y)
Tested-if quotes l true x y h k = h refl
Tested-if quotes l false x y h k = k

not-true : (b : Bool) → not b ≡ true → b ≡ false
not-true true e = cc
not-true false e = refl

and-left : (a b : Bool) → (a && b) ≡ true → a ≡ true
and-left true b e = refl
and-left false b e = cc

kind_of-Tested : (quotes : Bool) (l : Text) (ls : List Text) → Tested quotes l (kind_of quotes l ls)
unfolding kind_of
kind_of-Tested quotes l ls =
    Tested-if quotes l (is_blank l) blank _ (λ e. tt)
      (Tested-if quotes l (is_fence l) fenced _ (λ e. tt)
        (Tested-if quotes l (is_rule l) rule _ (λ e. tt)
          (Tested-if quotes l (ltb 0 (heading l)) title _ (λ e. tt)
            (Tested-if quotes l (quotes && starts_with (codes ">") l) quote _ (and-left quotes _) (
              Tested-if quotes l (table_at (l ∷ ls)) table _ (λ e. tt)
                (Tested-if quotes l (not (is_empty (item false l))) bullets _ (not-true _) (
                  Tested-if quotes l (not (is_empty (item true l))) numbers paragraph (not-true _)
                    tt)))))))

table_from-Takes :
    (urls : Urls) (o : Opts) (left : ℕ) (l : Text) (ls : List Text)
    → Takes (length ls) (table_from urls o left l ls)
unfolding table_from
table_from-Takes urls o left l [] = ([], left, [], refl, empty, omega arith)
table_from-Takes urls o left l (d ∷ ls) =
    and_rest-Takes _ _ _ (omega (arith, split_while_le is_row ls))
      (table-Returns urls o left l d (split_while is_row ls).0)

title-Returns :
    (b : Bool) (w : Written) → Returns w → Returns (within (if b then codes "h4" else codes "h3") w)
unfolding element_names contains_text text_eq
title-Returns true w h = within-Returns (codes "h4") w refl h
title-Returns false w h = within-Returns (codes "h3") w refl h

Html-fenced :
    (code : Text) → Html code → Html (codes "<pre><code>" ++ (code ++ codes "</code></pre>"))
unfolding element_names contains_text text_eq
Html-fenced code h =
    subst Html (simp (append_assoc) refl)
      (Html-bare (codes "pre") _ refl (Html-bare (codes "code") code refl h))

block_at-Takes :
    (urls : Urls) (o : Opts) (quoted inner : Inner) (quotes : Bool) (left : ℕ) (l : Text)
    (ls : List Text) (k : Kind)
    → Tested quotes l k
    → (quotes ≡ true
        → (left' : ℕ) (ks : List Text) → length ks ≤ suc (length ls)
        → Returns (quoted left' ks))
    → ((left' : ℕ) (ks : List Text) → length ks ≤ length ls → Returns (inner left' ks))
    → Takes (length ls) (block_at urls o quoted inner quotes left l ls k)
unfolding block_at element_names void_names contains_text text_eq are_known tag attributes
block_at-Takes urls o quoted inner quotes left l ls blank t q i =
    ([], left, ls, refl, empty, omega arith)
block_at-Takes urls o quoted inner quotes left l ls fenced t q i =
    let (code, rest) = split_fence ls in
    (
      _,
      left,
      rest,
      refl,
      Html-fenced (escape (join (10 ∷ []) code)) (Html-escape (join (10 ∷ []) code)),
      split_fence_le ls,
    )
block_at-Takes urls o quoted inner quotes left l ls rule t q i =
    (codes "<hr>", left, ls, refl, void (codes "hr") [] refl refl refl empty, omega arith)
block_at-Takes urls o quoted inner quotes left l ls title t q i =
    and_rest-Takes (length ls) ls _ (omega arith) (
      title-Returns (ltb 2 (heading l)) _
        (inline-Html urls true o left (trim_space (drop (heading l) l))))
block_at-Takes urls o quoted inner quotes left l ls quote t q i =
    let more = (split_while (λ k. starts_with (codes ">") k) ls).0 in
    and_rest-Takes (length ls) _ _ (split_while_le _ ls) (
      within-Returns (codes "blockquote") _ refl (
        q t left (map unquoted (l ∷ more)) (
          omega (
            arith,
            length-map unquoted more,
            split_while_le_inner (λ k. starts_with (codes ">") k) ls,
          ))))
block_at-Takes urls o quoted inner quotes left l ls table t q i = table_from-Takes urls o left l ls
block_at-Takes urls o quoted inner quotes left l ls bullets t q i =
    list-Takes urls o inner false left l ls t i
block_at-Takes urls o quoted inner quotes left l ls numbers t q i =
    list-Takes urls o inner true left l ls t i
block_at-Takes urls o quoted inner quotes left l ls paragraph t q i =
    and_rest-Takes (length ls) _ _ (split_paragraph_le quotes ls) (
      within-Returns (codes "p") _ refl
        (joined-Returns urls o left (l ∷ (split_paragraph quotes ls).0)))

flat-Returns :
    (urls : Urls) (o : Opts) (left : ℕ) (lines : List Text) → Returns (flat urls o left lines)
unfolding flat element_names contains_text text_eq
flat-Returns urls o left lines =
    elim (Bool-cases (length (select (λ l. not (is_blank l)) lines) == 0)) [
      | inl e ↦ rw e (nothing-Returns left)
      | inr e ↦ rw e (
          within-Returns (codes "p") _ refl
            (joined-Returns urls o left (select (λ l. not (is_blank l)) lines)))
    ]

Returns-if : (b : Bool) {v w : Written} → Returns v → Returns w → Returns (if b then v else w)
Returns-if true h k = h
Returns-if false h k = k

and_blocks-Returns :
    (n : ℕ) (r : Taken) (f : ℕ → List Text → Written)
    → Takes n r
    → ((left : ℕ) (rest : List Text) → length rest ≤ n → Returns (f left rest))
    → Returns (and_blocks r f)
and_blocks-Returns n r f (out, left, rest, e, h, le) k =
    let (more, left', e', h') = k left rest le in
    (out ++ more, left', rw (e, e') refl, Html-append h h')

-- How much fuel blocks needs.
abbrev need : Bool → List Text → ℕ
need true ls = suc (length ls)
need false ls = length ls

need-fewer :
    (quotes : Bool) (l : Text) (ls ks : List Text)
    → length ks ≤ length ls
    → need quotes ks < need quotes (l ∷ ls)
need-fewer true l ls ks le = omega arith
need-fewer false l ls ks le = omega arith

need-least : (quotes : Bool) (ls : List Text) → need false ls ≤ need quotes ls
need-least true ls = omega arith
need-least false ls = omega arith

quoted :
    (quotes : Bool) (l : Text) (ls ks : List Text) (fuel : ℕ)
    → quotes ≡ true
    → length ks ≤ suc (length ls)
    → need quotes (l ∷ ls) < suc fuel
    → need false ks < fuel
quoted true l ls ks fuel t le lt = omega arith
quoted false l ls ks fuel t le lt = ground arith

blocks_from-Returns :
    (urls : Urls) (o : Opts) (fuel : ℕ) (quotes : Bool) (depth left : ℕ) (lines : List Text)
    → need quotes lines < fuel
    → Returns (blocks_from urls o fuel quotes depth left lines)
unfolding blocks_from
blocks_from-Returns urls o zero quotes depth left lines lt = ground arith
blocks_from-Returns urls o (suc fuel) quotes depth left [] lt = nothing-Returns left
blocks_from-Returns urls o (suc fuel) quotes depth left (l ∷ ls) lt =
    and_blocks-Returns (length ls) _ _
      (block_at-Takes urls o _ _ quotes left l ls (kind_of quotes l ls) (kind_of-Tested quotes l ls)
        (λ t left' ks le.
          blocks_from-Returns urls o fuel false depth left' ks (quoted quotes l ls ks fuel t le lt))
        (λ left' ks le.
          Returns-if (ltb (suc depth) 6)
            (blocks_from-Returns urls o fuel false (suc depth) left' ks
              (omega (arith, lt, need-fewer quotes l ls ks le, need-least quotes ks)))
            (flat-Returns urls o left' ks)))
      (λ left' rest le.
        blocks_from-Returns urls o fuel quotes depth left' rest
          (omega (arith, lt, need-fewer quotes l ls rest le)))

-- For every text, all options and whatever net/url says of links, Render ends, and the page is HTML:
-- outside of the tags each character is escaped, each tag is one of a fixed list with attributes of
-- a fixed list, whose values are escaped, and each element is closed where it was opened.
pub render-Html :
    (urls : Urls) (o : Opts) (text : Text)
    → (out : Text) × (left : ℕ) × (render urls o text ≡ some (out, left)) × Html out
unfolding render
render-Html urls o text =
    blocks_from-Returns urls o (suc (suc (length (split_lines text)))) true 0 max_paths
      (split_lines text) (omega arith)
