-- ===== src/Markdown/Places.antt =====
-- internal/markdown/markdown.go: what is a path, a link or a reference, and where it ends.
use hand.Base.{
  Bool, List, Option, Text, [], codes, contains_text, drop, ends_with, exists_where, false,
  if◌then◌else◌, index, is_empty, leb, length, none, not, some, starts_with, take, true, ℕ, ◌&&◌,
  ◌-◌, ◌==◌, ◌||◌, ◌∷◌,
}

-- word.
unfoldable pub is_word : ℕ → Bool
is_word c =
    (leb b'a' c && leb c b'z')
    || (leb b'A' c && leb c b'Z')
    || (leb b'0' c && leb c b'9')
    || leb 0x80 c

unfoldable pub is_digit : ℕ → Bool
is_digit c = leb b'0' c && leb c b'9'

unfoldable pub is_letter : ℕ → Bool
is_letter c = (leb b'a' c && leb c b'z') || (leb b'A' c && leb c b'Z')

-- strings.ContainsRune.
unfoldable pub has_char : Text → ℕ → Bool
has_char s c = exists_where (λ d. d == c) s

-- strings.Split by one character.
unfoldable pub split_by : ℕ → Text → List Text
split_by sep [] = [] ∷ []
split_by sep (c ∷ s) = elim (split_by sep s) [
  | [] ↦ []
  | w ∷ ws ↦ if c == sep then [] ∷ w ∷ ws else (c ∷ w) ∷ ws
]

-- The end of pathLike, from the slash on.
unfoldable pub path_tail : Text → Bool
unfolding has_char
path_tail [] = false
path_tail (c ∷ []) = false
path_tail (c ∷ d ∷ s) = not (has_char (32 ∷ 9 ∷ b'/' ∷ 92 ∷ []) d)

-- Is there a drive's letter with a colon, and is a slash behind it?
unfoldable pub is_drive : Text → Bool
unfolding is_letter
is_drive [] = false
is_drive (c ∷ []) = false
is_drive (c ∷ d ∷ s) = d == b':' && is_letter c

unfoldable pub is_rooted : Text → Bool
is_rooted [] = false
is_rooted (c ∷ s) = c == 92 || c == b'/'

-- pathLike.
unfoldable pub path_like : Text → Bool
unfolding starts_with is_drive is_rooted path_tail
path_like p =
    if starts_with (codes "~/") p
    then path_tail (drop 1 p)
    else if is_drive p && is_rooted (drop 2 p)
    then path_tail (drop 2 p)
    else starts_with (codes "/") p && path_tail p

-- relLike.
unfoldable pub rel_like : Text → Bool
unfolding is_drive has_char starts_with split_by contains_text index
rel_like p =
    not (is_drive p)
    && has_char p b'/'
    && not (has_char p 32 || has_char p 9)
    && (elim (index (codes "://") p) [ none ↦ true | some j ↦ false ])
    && not (starts_with (codes "/") p)
    && not (starts_with (codes "~") p)
    && not (contains_text (split_by b'/' p) (codes ".."))

-- rest[:n], where strings.IndexAny(rest, " \t\n<>\"'`") is n.
unfoldable pub token_chars : Text → Text
unfolding has_char
token_chars [] = []
token_chars (c ∷ s) =
    let rest = token_chars s in
    if has_char (32 ∷ 9 ∷ 10 ∷ b'<' ∷ b'>' ∷ 34 ∷ 39 ∷ b'`' ∷ []) c then [] else c ∷ rest

-- strings.TrimRight(s, ".,;:!?").
unfoldable pub trim_stops : Text → Text
unfolding has_char
trim_stops [] = []
trim_stops (c ∷ s) = elim (trim_stops s) [
  | [] ↦ if has_char (codes ".,;:!?") c then [] else c ∷ []
  | d ∷ t ↦ c ∷ d ∷ t
]

-- token.
unfoldable pub token : Text → Text
unfolding token_chars trim_stops ends_with has_char
token rest =
    let t = trim_stops (token_chars rest) in
    if ends_with (codes ")") t && not (has_char t b'(')
    then trim_stops (take (length t - 1) t)
    else t

-- The digits that a text begins with.
unfoldable pub digits : Text → Text
unfolding is_digit
digits [] = []
digits (c ∷ s) = let rest = digits s in if is_digit c then c ∷ rest else []

-- Whether a reference may end before this: the last conditions of refLen.
unfoldable pub ends_ref : Text → Bool
unfolding is_word
ends_ref [] = true
ends_ref (c ∷ []) = not (is_word c || c == b'_')
ends_ref (c ∷ d ∷ s) = not (is_word c || c == b'_') && not (c == b'.' && is_word d)

-- The reference that a text begins with: refLen gives its length, and 0 for `none`.
unfoldable pub ref_of : Text → Option Text
unfolding digits ends_ref starts_with
ref_of [] = none
ref_of (c ∷ s) =
    let ds = digits s in
    if is_empty ds || starts_with (codes "0") s || not (ends_ref (drop (length ds) s))
    then none
    else some (c ∷ ds)
