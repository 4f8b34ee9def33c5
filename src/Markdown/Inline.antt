-- ===== src/Markdown/Inline.antt =====
-- internal/markdown/markdown.go: inline, which writes one line.
use hand.Base.{
  Bool, Option, Text, [], drop, last_of, length, none, some, suc, take, zero, ℕ, ◌++◌, ◌∷◌,
}
use hand.Markdown.Escape.{escape_char}
use hand.Markdown.Scan.{Dead, Marked, Opts, Urls, mark_of, marker, none_dead}

-- What one round of inline's loop writes, and how much it has read behind the first character.
abbrev pub written : ℕ → Option (Text × ℕ) → Text × ℕ
written c none = (escape_char c, 0)
written c (some (out, zero)) = (escape_char c, 0)
written c (some (out, suc n)) = (out, n)

abbrev pub after_round : Text → Option (Text × ℕ) → Option (Text × ℕ)
after_round out none = none
after_round out (some (rest, left)) = some (out ++ rest, left)

-- inline: the text, and how many paths are left.
abbrev pub next_round :
    (Dead → ℕ → Option ℕ → Text → Option (Text × ℕ)) → ℕ → Text → Option Marked → Option (Text × ℕ)
next_round go c s none = none
next_round go c s (some (m, dead, left)) =
    let (out, n) = written c m in
    after_round out (go dead left (last_of (some c) (take n s)) (drop n s))

unfoldable pub inline_from : Urls → ℕ → Bool → Opts → Dead → ℕ → Option ℕ → Text → Option (Text × ℕ)
unfolding marker mark_of
inline_from urls zero links o dead left prev s = none
inline_from urls (suc fuel) links o dead left prev [] = some ([], left)
inline_from urls (suc fuel) links o dead left prev (c ∷ s) =
    next_round (inline_from urls fuel links o) c s (
      marker urls (λ links' o' left' t. inline_from urls fuel links' o' none_dead left' none t)
        links o left dead prev c s (mark_of links o left dead prev c s))

unfoldable pub inline : Urls → Bool → Opts → ℕ → Text → Option (Text × ℕ)
unfolding inline_from
inline urls links o left s = inline_from urls (suc (length s)) links o none_dead left none s
