-- ===== src/Markdown/Ends.antt =====
-- internal/markdown/markdown.go: where a mark ends.
use hand.Base.{
  Option, Text, [], codes, drop, false, if◌then◌else◌, index, none, not, some, suc, true, zero, ℕ,
  ◌&&◌, ◌+◌, ◌==◌, ◌||◌, ◌∷◌,
}
use hand.Markdown.Places.{is_word}

-- What a search for the end of a mark says: 0, -1, or where it is.
pub data Found : Type 0 where
  nothing : Found
  never : Found
  here : ℕ → Found

-- closing's loop, from i + 2 on; `before` is the character before.
unfoldable pub closing_from : ℕ → ℕ → Text → Option ℕ
unfolding is_word
closing_from c before [] = none
closing_from c before (d ∷ s) =
    if d == c
      && not (before == 32)
      && (c == b'*' || (elim s [ [] ↦ true | e ∷ t ↦ not (is_word e) ]))
    then some 0
    else elim (closing_from c d s) [ none ↦ none | some j ↦ some (suc j) ]

-- closing, for the mark `c` and what stands around it, counted from i + 2.
unfoldable pub closing : Option ℕ → ℕ → Text → Found
unfolding closing_from is_word
closing prev c [] = Found.nothing
closing prev c (d ∷ s) =
    if d == 32 || (c == b'_' && (elim prev [ none ↦ false | some p ↦ is_word p ]))
    then Found.nothing
    else elim (closing_from c d s) [ none ↦ Found.never | some j ↦ Found.here j ]

-- Where a mark of one or two characters ends, by strings.Index: it must not be empty.
unfoldable pub pair_end : Text → Text → Found
unfolding index
pair_end mark s = elim (index mark s) [
  | none ↦ Found.never
  | some zero ↦ Found.nothing
  | some (suc j) ↦ Found.here (suc j)
]

-- Where "](" is, and the ")" behind it.
unfoldable pub link_parts : Text → Option (ℕ × ℕ)
unfolding index
link_parts rest = elim (index (codes "](") rest) [
  | none ↦ none
  | some mid ↦ (elim (index (codes ")") (drop (mid + 2) rest)) [
    | none ↦ none
    | some end ↦ some (mid, end)
  ])
]
