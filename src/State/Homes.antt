-- ===== src/State/Homes.antt =====
-- internal/state/move.go: how the paths of a moved fleet's home are found and replaced in a text.
use hand.Base.{
  Bool, List, Option, Text, [], drop, if◌then◌else◌, index, is_empty, last_of, leb, length, map,
  none, not, some, suc, take, true, zero, ℕ, ◌&&◌, ◌++◌, ◌+◌, ◌==◌, ◌||◌, ◌∷◌,
}
use mathlib.Core.Option

-- foldASCII, where `fold` has it.
unfoldable pub fold_char : Bool → ℕ → ℕ
fold_char fold c = if fold && (leb b'A' c && leb c b'Z') then c + 32 else c

unfoldable pub folded : Bool → Text → Text
unfolding fold_char
folded fold s = map (fold_char fold) s

-- moveName and moveGlue. All bytes of a character beyond ASCII are 0x80 and more.
unfoldable pub move_name : ℕ → Bool
move_name c =
    (leb b'a' c && leb c b'z')
    || (leb b'A' c && leb c b'Z')
    || (leb b'0' c && leb c b'9')
    || c == b'_'
    || c == b'-'
    || c == b'.'
    || c == b'+'
    || leb 0x80 c

unfoldable pub move_glue : ℕ → Bool
unfolding move_name
move_glue c = move_name c || c == 32

-- moveLead.
unfoldable pub move_lead : ℕ → Bool
unfolding move_name
move_lead c = move_name c || c == b'/' || c == 92 || c == b'~'

-- pathEnd(s, end), by what stands behind `end`.
unfoldable pub path_end : Text → Bool
unfolding move_glue
path_end [] = true
path_end (c ∷ []) = c == b'.' || not (move_glue c)
path_end (c ∷ d ∷ s) =
    if not (c == b'.')
    then not (move_glue c)
    else if d == 32 || d == 9 || d == 10 || d == 13
    then true
    else not (move_glue d) && not (d == b'/') && not (d == 92)

-- j == 0 || !moveLead(s[j-1]), by the character before.
unfoldable pub is_free : Option ℕ → Bool
unfolding move_lead
is_free none = true
is_free (some c) = not (move_lead c)

-- What is written for an occurrence, and then the rest.
abbrev pub place : Bool → Text → Text → Text → Option (Text × ℕ) → Option (Text × ℕ)
place hit before word to none = none
place hit before word to (some (out, n)) =
    if hit then some (before ++ (to ++ out), suc n) else some (before ++ (word ++ out), n)

-- The body of replacePathFold's loop: `s` is what is left to read.
unfoldable pub replace_at :
    Bool
    → Text
    → Text
    → (Option ℕ → Text → Option (Text × ℕ))
    → Option ℕ
    → Text
    → Option ℕ
    → Option (Text × ℕ)
unfolding is_free path_end
replace_at fold from to next prev s none = some (s, 0)
replace_at fold from to next prev s (some j) =
    let before = take j s in
    let word = take (length from) (drop j s) in
    let after = drop (length from) (drop j s) in
    place (is_free (last_of prev before) && path_end after) before word to
      (next (last_of (last_of prev before) word) after)

unfoldable pub replace_from : Bool → Text → Text → ℕ → Option ℕ → Text → Option (Text × ℕ)
unfolding replace_at folded index
replace_from fold from to zero prev s = none
replace_from fold from to (suc fuel) prev s =
    replace_at fold from to (replace_from fold from to fuel) prev s
      (index (folded fold from) (folded fold s))

-- replacePathFold: the text, and how many paths were replaced.
unfoldable pub replace_path_fold : Bool → Text → Text → Text → Option (Text × ℕ)
unfolding replace_from
replace_path_fold fold s from to =
    if is_empty s || is_empty from
    then some (s, 0)
    else replace_from fold from to (suc (length s)) none s

-- The body of countPath's loop.
abbrev pub tally : Bool → Option ℕ → Option ℕ
tally hit none = none
tally hit (some n) = if hit then some (suc n) else some n

unfoldable pub count_at :
    Text → (Option ℕ → Text → Option ℕ) → Option ℕ → Text → Option ℕ → Option ℕ
unfolding is_free path_end
count_at pattern next prev s none = some 0
count_at pattern next prev s (some j) =
    let before = take j s in
    let word = take (length pattern) (drop j s) in
    let after = drop (length pattern) (drop j s) in
    tally (is_free (last_of prev before) && path_end after)
      (next (last_of (last_of prev before) word) after)

unfoldable pub count_from : Text → ℕ → Option ℕ → Text → Option ℕ
unfolding count_at index
count_from pattern zero prev s = none
count_from pattern (suc fuel) prev s =
    count_at pattern (count_from pattern fuel) prev s (index pattern s)

-- countPath.
unfoldable pub count_path : Text → Text → Option ℕ
unfolding count_from
count_path s pattern =
    if is_empty s || is_empty pattern then some 0 else count_from pattern (suc (length s)) none s

-- countHits.
unfoldable pub count_hits : Bool → Text → List Text → Option ℕ
unfolding folded count_path
count_hits fold s [] = some 0
count_hits fold s (p ∷ ps) = elim (count_path (folded fold s) (folded fold p)) [
  | none ↦ none
  | some n ↦ Option.map (λ k. n + k) (count_hits fold s ps)
]
