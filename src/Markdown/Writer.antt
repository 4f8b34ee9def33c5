-- ===== src/Markdown/Writer.antt =====
-- internal/markdown/markdown.go: how what is written is put together, with the lines that are left.
use hand.Base.{
  Bool, List, Option, Text, [], codes, drop, if◌then◌else◌, none, some, starts_with, trim_space,
  true, ℕ, ◌++◌, ◌||◌, ◌∷◌,
}
use hand.Markdown.Scan.{Opts, Urls}
use hand.Markdown.Inline.{after_round, inline}
use hand.Markdown.Lines.{is_blank, is_fence, starts}

-- What is written, and how many paths are left; `none` where the fuel ends.
abbrev pub Written : Type 0
Written = Option (Text × ℕ)

abbrev pub and_then : Written → (ℕ → Written) → Written
and_then none f = none
and_then (some (out, left)) f = after_round out (f left)

abbrev pub wrap : Text → Text → Written → Written
wrap head foot none = none
wrap head foot (some (out, left)) = some (head ++ (out ++ foot), left)

-- The element `name`, with no attribute.
abbrev pub within : Text → Written → Written
within name w = wrap (b'<' ∷ (name ++ codes ">")) (codes "</" ++ (name ++ codes ">")) w

-- What is written with the lines that are left.
abbrev pub Taken : Type 0
Taken = Option (Text × ℕ × List Text)

abbrev pub and_rest : List Text → Written → Taken
and_rest rest none = none
and_rest rest (some (out, left)) = some (out, left, rest)

-- Lines by inline, as strings.Join(parts, "<br>") has them.
unfoldable pub joined : Urls → Opts → ℕ → List Text → Written
unfolding inline
joined urls o left [] = some ([], left)
joined urls o left (l ∷ []) = inline urls true o left l
joined urls o left (l ∷ k ∷ ls) =
    and_then (inline urls true o left l)
      (λ left'. and_then (some (codes "<br>", left')) (λ left''. joined urls o left'' (k ∷ ls)))

-- The lines up to the one that ends them, and those behind it.
unfoldable pub split_fence : List Text → List Text × List Text
unfolding is_fence
split_fence [] = ([], [])
split_fence (l ∷ ls) =
    let (code, rest) = split_fence ls in if is_fence l then ([], ls) else (l ∷ code, rest)

unfoldable pub split_while : (Text → Bool) → List Text → List Text × List Text
split_while p [] = ([], [])
split_while p (l ∷ ls) =
    let (inner, rest) = split_while p ls in if p l then (l ∷ inner, rest) else ([], l ∷ ls)

-- The lines of a paragraph, behind its first.
unfoldable pub split_paragraph : Bool → List Text → List Text × List Text
unfolding starts trim_space
split_paragraph quotes [] = ([], [])
split_paragraph quotes (l ∷ ls) =
    let (part, rest) = split_paragraph quotes ls in
    if is_blank l || starts quotes l ls then ([], l ∷ ls) else (l ∷ part, rest)

-- A line of a quotation, without its mark.
unfoldable pub unquoted : Text → Text
unfolding starts_with
unquoted l = let t = drop 1 l in if starts_with (codes " ") t then drop 1 t else t
