-- ===== src/Markdown/Escape.antt =====
-- html.EscapeString, which internal/markdown/markdown.go applies to all that it was given.
use hand.Base.{Text, [], codes, if◌then◌else◌, ℕ, ◌++◌, ◌==◌, ◌∷◌}

unfoldable pub escape_char : ℕ → Text
escape_char c =
    if c == b'&'
    then codes "&amp;"
    else if c == 39
    then codes "&#39;"
    else if c == b'<'
    then codes "&lt;"
    else if c == b'>'
    then codes "&gt;"
    else if c == 34
    then codes "&#34;"
    else c ∷ []

unfoldable pub escape : Text → Text
unfolding escape_char
escape [] = []
escape (c ∷ s) = escape_char c ++ escape s
