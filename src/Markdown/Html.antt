-- ===== src/Markdown/Html.antt =====
-- What is safe HTML: escaped characters and elements of a fixed kind, each closed where it was opened.
use hand.Base.{Bool, List, Text, [], codes, contains_text, true, ℕ, ◌&&◌, ◌++◌, ◌∷◌, ◌≡◌}
use hand.Markdown.Escape.{escape, escape_char}

-- The elements that have a content, the empty ones, and the attributes.
unfoldable pub element_names : List Text
element_names =
    codes "a"
    ∷ codes "blockquote"
    ∷ codes "code"
    ∷ codes "del"
    ∷ codes "div"
    ∷ codes "em"
    ∷ codes "h3"
    ∷ codes "h4"
    ∷ codes "li"
    ∷ codes "ol"
    ∷ codes "p"
    ∷ codes "pre"
    ∷ codes "span"
    ∷ codes "strong"
    ∷ codes "table"
    ∷ codes "tbody"
    ∷ codes "td"
    ∷ codes "th"
    ∷ codes "thead"
    ∷ codes "tr"
    ∷ codes "ul"
    ∷ []

unfoldable pub void_names : List Text
void_names = codes "br" ∷ codes "hr" ∷ codes "img" ∷ []

unfoldable pub attribute_names : List Text
attribute_names =
    codes "alt"
    ∷ codes "aria-label"
    ∷ codes "class"
    ∷ codes "href"
    ∷ codes "loading"
    ∷ codes "rel"
    ∷ codes "role"
    ∷ codes "src"
    ∷ codes "start"
    ∷ codes "tabindex"
    ∷ codes "target"
    ∷ []

-- Attributes by name and value, as they are written.
unfoldable pub attributes : List (Text × Text) → Text
unfolding escape
attributes [] = []
attributes ((name, value) ∷ attrs) =
    32 ∷ (name ++ (b'=' ∷ 34 ∷ (escape value ++ (34 ∷ attributes attrs))))

unfoldable pub are_known : List (Text × Text) → Bool
unfolding contains_text
are_known [] = true
are_known ((name, value) ∷ attrs) = contains_text attribute_names name && are_known attrs

-- A tag, less its "<".
unfoldable pub tag : Text → List (Text × Text) → Text
unfolding attributes
tag name attrs = name ++ (attributes attrs ++ codes ">")

pub data Html : Text → Type 0 where
  empty : Html []
  escaped : {s t : Text} (c : ℕ) → t ≡ escape_char c ++ s → Html s → Html t
  void :
      {s t : Text} (name : Text) (attrs : List (Text × Text))
      → contains_text void_names name ≡ true
      → are_known attrs ≡ true
      → t ≡ b'<' ∷ (tag name attrs ++ s)
      → Html s
      → Html t
  element :
      {body s t : Text} (name : Text) (attrs : List (Text × Text))
      → contains_text element_names name ≡ true
      → are_known attrs ≡ true
      → t ≡ b'<' ∷ (tag name attrs ++ (body ++ (codes "</" ++ (name ++ (b'>' ∷ s)))))
      → Html body
      → Html s
      → Html t
