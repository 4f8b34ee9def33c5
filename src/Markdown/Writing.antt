-- ===== src/Markdown/Writing.antt =====
-- What internal/markdown/markdown.go puts together is HTML, if its parts are.
use hand.Base.{List, Text, [], ap, append_assoc, codes, contains_text, refl, true, ◌++◌, ◌∷◌, ◌≡◌}
use hand.Markdown.Escape.{escape, escape_char}
use hand.Markdown.Html.{Html, are_known, element, element_names, empty, escaped, tag, void}
use hand.Markdown.Html.{Html, are_known, element, element_names, empty, escaped, tag, void}

pub Html-append : {s t : Text} → Html s → Html t → Html (s ++ t)
Html-append empty k = k
Html-append {t = t} (escaped {s = s} c e h) k =
    escaped c (rw e (append_assoc (escape_char c) s t)) (Html-append h k)
Html-append {t = t} (void {s = s} name attrs n a e h) k =
    void name attrs n a (rw e (ap (λ r. b'<' ∷ r) (append_assoc (tag name attrs) s t)))
      (Html-append h k)
Html-append {t = t} (element {body = body} {s = s} name attrs n a e b h) k =
    element name attrs n a (rw e (ap (λ r. b'<' ∷ r) (simp (append_assoc) refl))) b
      (Html-append h k)

pub Html-escape : (s : Text) → Html (escape s)
unfolding escape
Html-escape [] = empty
Html-escape (c ∷ s) = escaped c refl (Html-escape s)

pub Html-element :
    (name : Text) (attrs : List (Text × Text)) (body t : Text)
    → contains_text element_names name ≡ true
    → are_known attrs ≡ true
    → t ≡ b'<' ∷ (tag name attrs ++ (body ++ (codes "</" ++ (name ++ codes ">"))))
    → Html body
    → Html t
Html-element name attrs body t n a e h = element name attrs n a e h empty
