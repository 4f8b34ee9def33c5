-- ===== src/Markdown/Items.antt =====
-- internal/markdown/markdown.go: the items of lists end and are HTML.
use hand.Base.{
  Bool, Bool-cases, List, Option, Text, [], ap, append_assoc, arith, codes, contains_text, decimal,
  decimal_from, false, if◌then◌else◌, inl, inr, is_empty, length, ltb, map, none, refl, some, suc,
  text_eq, true, zero, ℕ, ◌%◌, ◌++◌, ◌+◌, ◌/◌, ◌<◌, ◌==◌, ◌||◌, ◌∷◌, ◌≡◌, ◌≤◌,
}
use hand.Markdown.Escape.{escape, escape_char}
use hand.Markdown.Places.{digits, is_digit}
use hand.Markdown.Scan.{Opts, Urls}
use hand.Markdown.Lines.{
  dedent, is_blank, is_fence, is_inner, item, starts, task, task_class, task_label,
}
use hand.Markdown.Writer.{Taken, Written, and_rest, split_fence, split_paragraph, split_while}
use hand.Markdown.Lists.{
  Inner, item_at, items_from, list_foot, list_head, more_items, number, wrap_taken, write_item,
  write_list,
}
use hand.Markdown.Html.{Html, are_known, attribute_names, attributes, element_names, empty, tag}
use hand.Markdown.Writing.{Html-append, Html-element, Html-escape}
use hand.Markdown.Marks.{Html-bare, Returns, escape_char-digit}
use hand.Markdown.Safe.{inline-Html}
use hand.Markdown.Pieces.{and_then-Returns, within-Returns, wrap-Returns}

-- What a block gives: HTML, and at most `n` lines that are left.
abbrev pub Takes : ℕ → Taken → Type 0
Takes n r =
    (out : Text) × (left : ℕ) × (rest : List Text) × (r ≡ some (out, left, rest))
    × Html out
    × (length rest ≤ n)

pub and_rest-Takes :
    (n : ℕ) (rest : List Text) (w : Written)
    → length rest ≤ n
    → Returns w
    → Takes n (and_rest rest w)
and_rest-Takes n rest w le (out, left, e, h) = (out, left, rest, rw e refl, h, le)

pub split_while_le : (p : Text → Bool) (ls : List Text) → length (split_while p ls).1 ≤ length ls
unfolding split_while
split_while_le p [] = omega arith
split_while_le p (l ∷ ls) = elim (Bool-cases (p l)) [
  | inl e ↦ rw e (omega (arith, split_while_le p ls))
  | inr e ↦ rw e (omega arith)
]

pub split_while_le_inner :
    (p : Text → Bool) (ls : List Text) → length (split_while p ls).0 ≤ length ls
unfolding split_while
split_while_le_inner p [] = omega arith
split_while_le_inner p (l ∷ ls) = elim (Bool-cases (p l)) [
  | inl e ↦ rw e (omega (arith, split_while_le_inner p ls))
  | inr e ↦ rw e (omega arith)
]

pub split_fence_le : (ls : List Text) → length (split_fence ls).1 ≤ length ls
unfolding split_fence
split_fence_le [] = omega arith
split_fence_le (l ∷ ls) = elim (Bool-cases (is_fence l)) [
  | inl e ↦ rw e (omega arith)
  | inr e ↦ rw e (omega (arith, split_fence_le ls))
]

pub split_paragraph_le : (q : Bool) (ls : List Text) → length (split_paragraph q ls).1 ≤ length ls
unfolding split_paragraph
split_paragraph_le q [] = omega arith
split_paragraph_le q (l ∷ ls) = elim (Bool-cases (is_blank l || starts q l ls)) [
  | inl e ↦ rw e (omega arith)
  | inr e ↦ rw e (omega (arith, split_paragraph_le q ls))
]

pub length-map : (f : Text → Text) (ls : List Text) → length (map f ls) ≡ length ls
length-map f [] = refl
length-map f (l ∷ ls) = ap suc (length-map f ls)

length-dedent : (ls : List Text) → length (dedent ls) ≡ length ls
unfolding dedent
length-dedent ls = length-map _ ls

item_at-Returns :
    (urls : Urls) (o : Opts) (inner : Inner) (left : ℕ) (text : Text) (lines : List Text)
    (t : Option (Bool × Text))
    → ((left' : ℕ) → Returns (inner left' (dedent lines)))
    → Returns (item_at urls o inner left text lines t)
unfolding item_at element_names attribute_names are_known contains_text text_eq tag attributes
    escape escape_char
item_at-Returns urls o inner left text lines none ih =
    within-Returns (codes "li") _ refl (and_then-Returns _ _ (inline-Html urls true o left text) ih)
item_at-Returns urls o inner left text lines (some (is_done, rest)) ih =
    wrap-Returns (codes "<li class=\"" ++ (task_class is_done ++ codes "\">")) (codes "</li>") _
      (li is_done)
      (and_then-Returns _ _
        (wrap-Returns (codes "<span class=\"sr\">") (codes "</span>")
          (some (task_label is_done, left))
          (λ out h.
            Html-element (codes "span") ((codes "class", codes "sr") ∷ []) out _ refl refl refl h)
          (task_label is_done, left, refl, label is_done))
        (λ left'. and_then-Returns _ _ (inline-Html urls true o left' rest) ih))
  where
    label : (is_done : Bool) → Html (task_label is_done)
    label false = Html-escape (codes "to do: ")
    label true = Html-escape (codes "done: ")

    li :
        (is_done : Bool) (out : Text)
        → Html out
        → Html (
            (codes "<li class=\"" ++ (task_class is_done ++ codes "\">")) ++ (out ++ codes "</li>"))
    li false out h =
        Html-element (codes "li") ((codes "class", codes "task") ∷ []) out _ refl refl refl h
    li true out h =
        Html-element (codes "li") ((codes "class", codes "task done") ∷ []) out _ refl refl refl h

more_items-Takes :
    (n : ℕ) (w : Written) (f : ℕ → Taken)
    → Returns w
    → ((left : ℕ) → Takes n (f left))
    → Takes n (more_items w f)
more_items-Takes n w f (out, left, e, h) k =
    let (more, left', rest, e', h', le) = k left in
    (out ++ more, left', rest, rw (e, e') refl, Html-append h h', le)

fewer : {m : ℕ} {r : Taken} (n : ℕ) → m ≤ n → Takes m r → Takes n r
fewer n le (out, left, rest, e, h, less) = (out, left, rest, e, h, omega arith)

first-Takes :
    (urls : Urls) (o : Opts) (inner : Inner) (ordered : Bool) (fuel left : ℕ) (l : Text)
    (ls : List Text)
    → is_empty (item ordered l) ≡ false
    → ((left' : ℕ) (ks : List Text) → length ks ≤ length ls → Returns (inner left' ks))
    → ((left' : ℕ)
        → Takes
            (length ls)
            (items_from urls o inner ordered fuel left' (split_while is_inner ls).1))
    → Takes (length ls) (items_from urls o inner ordered (suc fuel) left (l ∷ ls))
unfolding items_from write_item
first-Takes urls o inner ordered fuel left l ls e ih more =
    let below = (split_while is_inner ls).0 in
    rw e (
      more_items-Takes (length ls) _ _
        (item_at-Returns urls o inner left (item ordered l) below
          (if o.doc then task (item ordered l) else none)
          (λ left'.
            ih left' (dedent below)
              (omega (arith, length-dedent below, split_while_le_inner is_inner ls))))
        more)

items-Takes :
    (urls : Urls) (o : Opts) (inner : Inner) (ordered : Bool) (n fuel left : ℕ) (lines : List Text)
    → ((left' : ℕ) (ks : List Text) → length ks ≤ n → Returns (inner left' ks))
    → length lines < fuel
    → length lines ≤ n
    → Takes (length lines) (items_from urls o inner ordered fuel left lines)
unfolding items_from
items-Takes urls o inner ordered n zero left lines ih lt le = ground arith
items-Takes urls o inner ordered n (suc fuel) left [] ih lt le =
    ([], left, [], refl, empty, omega arith)
items-Takes urls o inner ordered n (suc fuel) left (l ∷ ls) ih lt le =
    elim (Bool-cases (is_empty (item ordered l))) [
      | inl e ↦ rw e ([], left, l ∷ ls, refl, empty, omega arith)
      | inr e ↦
          let rest = (split_while is_inner ls).1 in
          let short = split_while_le is_inner ls in
          fewer (suc (length ls)) (omega arith) (
            first-Takes urls o inner ordered fuel left l ls e
              (λ left' ks k. ih left' ks (omega arith))
              (λ left'. fewer (length ls) short (
                items-Takes urls o inner ordered n fuel left' rest ih (omega arith) (omega arith))))
    ]

escape-decimal_from :
    (fuel n : ℕ) (acc : Text)
    → escape acc ≡ acc
    → escape (decimal_from fuel n acc) ≡ decimal_from fuel n acc
unfolding decimal_from escape is_digit
escape-decimal_from zero n acc h = h
escape-decimal_from (suc fuel) n acc h = elim (Bool-cases (n == 0)) [
  | inl e ↦ rw e h
  | inr e ↦ rw e (
      escape-decimal_from fuel (n / 10) ((n % 10 + 48) ∷ acc)
        (rw (escape_char-digit (n % 10 + 48) (ground arith), h) refl))
]

escape-decimal : (n : ℕ) → escape (decimal n) ≡ decimal n
unfolding decimal escape escape_char
escape-decimal n = elim (Bool-cases (n == 0)) [
  | inl e ↦ rw e refl
  | inr e ↦ rw e (escape-decimal_from n n [] refl)
]

list-Html :
    (ordered : Bool) (l out : Text)
    → Html out
    → Html (list_head ordered l ++ (out ++ list_foot ordered))
unfolding list_head element_names attribute_names are_known contains_text text_eq tag attributes
    escape
list-Html false l out h = Html-bare (codes "ul") out refl h
list-Html true l out h =
    elim (Bool-cases (ltb 0x7fffffff (number 0 (digits l)) || number 0 (digits l) == 1)) [
      | inl e ↦ rw e (Html-bare (codes "ol") out refl h)
      | inr e ↦ rw e (
          Html-element (codes "ol") ((codes "start", decimal (number 0 (digits l))) ∷ []) out _ refl
            refl (rw (escape-decimal (number 0 (digits l))) (simp (append_assoc) refl)) h)
    ]

wrap_taken-Takes :
    (n : ℕ) (head foot : Text) (r : Taken)
    → ((out : Text) → Html out → Html (head ++ (out ++ foot)))
    → Takes n r
    → Takes n (wrap_taken head foot r)
wrap_taken-Takes n head foot r k (out, left, rest, e, h, le) =
    (head ++ (out ++ foot), left, rest, rw e refl, k out h, le)

pub list-Takes :
    (urls : Urls) (o : Opts) (inner : Inner) (ordered : Bool) (left : ℕ) (l : Text) (ls : List Text)
    → is_empty (item ordered l) ≡ false
    → ((left' : ℕ) (ks : List Text) → length ks ≤ length ls → Returns (inner left' ks))
    → Takes (length ls) (write_list urls o inner ordered left l ls)
unfolding write_list
list-Takes urls o inner ordered left l ls e ih =
    let short = split_while_le is_inner ls in
    wrap_taken-Takes (length ls) (list_head ordered l) (list_foot ordered) _ (list-Html ordered l) (
      first-Takes urls o inner ordered (suc (length ls)) left l ls e ih (λ left'.
        fewer (length ls) short (
          items-Takes urls o inner ordered (length ls) (suc (length ls)) left'
            (split_while is_inner ls).1 ih (omega arith) short)))
