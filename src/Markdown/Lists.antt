-- ===== src/Markdown/Lists.antt =====
-- internal/markdown/markdown.go: list, task items and flat.
use hand.Base.{
  Bool, List, Option, Text, [], codes, decimal, false, if◌then◌else◌, is_empty, length, ltb, none,
  not, select, some, suc, trim_space, true, zero, ℕ, ◌*◌, ◌++◌, ◌+◌, ◌-◌, ◌==◌, ◌||◌, ◌∷◌,
}
use hand.Markdown.Places.{digits}
use hand.Markdown.Scan.{Opts, Urls}
use hand.Markdown.Inline.{inline}
use hand.Markdown.Lines.{dedent, is_blank, is_inner, item, task, task_class, task_label}
use hand.Markdown.Writer.{Taken, Written, and_then, joined, split_while, within, wrap}

-- The lines below an item, as blocks or flat.
abbrev pub Inner : Type 0
Inner = ℕ → List Text → Written

-- flat.
unfoldable pub flat : Urls → Opts → ℕ → List Text → Written
unfolding joined trim_space
flat urls o left lines =
    let parts = select (λ l. not (is_blank l)) lines in
    if length parts == 0 then some ([], left) else within (codes "p") (joined urls o left parts)

unfoldable pub item_at : Urls → Opts → Inner → ℕ → Text → List Text → Option (Bool × Text) → Written
unfolding inline dedent
item_at urls o inner left text lines none =
    within (codes "li")
      (and_then (inline urls true o left text) (λ left'. inner left' (dedent lines)))
item_at urls o inner left text lines (some (is_done, rest)) =
    wrap (codes "<li class=\"" ++ (task_class is_done ++ codes "\">")) (codes "</li>") (
      and_then
        (wrap (codes "<span class=\"sr\">") (codes "</span>") (some (task_label is_done, left)))
        (λ left'. and_then (inline urls true o left' rest) (λ left''. inner left'' (dedent lines))))

-- The body of list's loop.
unfoldable pub write_item : Urls → Opts → Inner → ℕ → Text → List Text → Written
unfolding item_at task
write_item urls o inner left text lines =
    item_at urls o inner left text lines (if o.doc then task text else none)

-- list's loop: the items, and the lines behind them.
abbrev pub behind : Text → Taken → Taken
behind out none = none
behind out (some (more, left, rest)) = some (out ++ more, left, rest)

abbrev pub more_items : Written → (ℕ → Taken) → Taken
more_items none f = none
more_items (some (out, left)) f = behind out (f left)

unfoldable pub items_from : Urls → Opts → Inner → Bool → ℕ → ℕ → List Text → Taken
unfolding item write_item split_while is_inner
items_from urls o inner ordered zero left lines = none
items_from urls o inner ordered (suc fuel) left [] = some ([], left, [])
items_from urls o inner ordered (suc fuel) left (l ∷ ls) =
    if is_empty (item ordered l)
    then some ([], left, l ∷ ls)
    else more_items (write_item urls o inner left (item ordered l) (split_while is_inner ls).0)
        (λ left'. items_from urls o inner ordered fuel left' (split_while is_inner ls).1)

-- The number that strconv.ParseInt(s, 10, 32) reads in digits.
unfoldable pub number : ℕ → Text → ℕ
number n [] = n
number n (c ∷ s) = number (n * 10 + (c - b'0')) s

-- The tag that a list begins with.
unfoldable pub list_head : Bool → Text → Text
unfolding digits number decimal
list_head false l = codes "<ul>"
list_head true l =
    let n = number 0 (digits l) in
    if ltb 0x7fffffff n || n == 1
    then codes "<ol>"
    else codes "<ol start=\"" ++ (decimal n ++ codes "\">")

abbrev pub list_foot : Bool → Text
list_foot false = codes "</ul>"
list_foot true = codes "</ol>"

abbrev pub wrap_taken : Text → Text → Taken → Taken
wrap_taken head foot none = none
wrap_taken head foot (some (out, left, rest)) = some (head ++ (out ++ foot), left, rest)

-- list, from its first line on.
unfoldable pub write_list : Urls → Opts → Inner → Bool → ℕ → Text → List Text → Taken
unfolding items_from list_head
write_list urls o inner ordered left l ls =
    wrap_taken (list_head ordered l) (list_foot ordered)
      (items_from urls o inner ordered (suc (suc (length ls))) left (l ∷ ls))
