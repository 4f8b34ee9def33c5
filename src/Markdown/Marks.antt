-- ===== src/Markdown/Marks.antt =====
-- internal/markdown/markdown.go: what scan.marker writes is HTML.
use hand.Base.{
  Bool-cases, Option, Text, [], ap, append_assoc, arith, codes, contains_text, inl, inr, none, refl,
  some, subst, sym, text_eq, true, ℕ, ◌++◌, ◌∷◌, ◌≡◌,
}
use hand.Markdown.Escape.{escape, escape_char}
use hand.Markdown.Places.{digits, has_char, is_digit, ref_of}
use hand.Markdown.Scan.{Dead, Marked, Urls, anchor, path_link}
use hand.Markdown.Html.{
  Html, are_known, attribute_names, attributes, element_names, empty, escaped, tag, void,
  void_names,
}
use hand.Markdown.Writing.{Html-element}

-- What a round writes, if it writes anything.
pub data Writes : Option (Text × ℕ) → Type 0 where
  silent : Writes none
  wrote : {out : Text} (n : ℕ) → Html out → Writes (some (out, n))

-- A result is there, and it is HTML.
abbrev pub Returns : Option (Text × ℕ) → Type 0
Returns r = (out : Text) × (left : ℕ) × (r ≡ some (out, left)) × Html out

abbrev pub Marks : Option Marked → Type 0
Marks r =
    (m : Option (Text × ℕ)) × (dead : Dead) × (left : ℕ) × (r ≡ some (m, dead, left)) × Writes m

-- Elements as the code spells them.
pub Html-path_link : (href text : Text) → Html text → Html (path_link href text)
unfolding tag attributes escape element_names attribute_names are_known contains_text text_eq
Html-path_link href text h =
    Html-element (codes "a")
      ((codes "class", codes "path")
        ∷ (codes "href", href)
        ∷ (codes "target", codes "_blank")
        ∷ (codes "rel", codes "noopener")
        ∷ [])
      text _ refl refl (simp (append_assoc) refl) h

pub Html-anchor : (urls : Urls) (raw text : Text) → Html text → Html (anchor urls raw text)
unfolding tag attributes escape element_names attribute_names are_known contains_text text_eq
Html-anchor urls raw text h =
    Html-element (codes "a")
      ((codes "href", urls.spelled raw)
        ∷ (codes "target", codes "_blank")
        ∷ (codes "rel", codes "noopener noreferrer")
        ∷ [])
      text _ refl refl (simp (append_assoc) refl) h

pub Html-link :
    (u text : Text)
    → Html text
    → Html ((codes "<a href=\"" ++ (escape u ++ codes "\">")) ++ (text ++ codes "</a>"))
unfolding tag attributes escape element_names attribute_names are_known contains_text text_eq
Html-link u text h =
    Html-element (codes "a") ((codes "href", u) ∷ []) text _ refl refl (simp (append_assoc) refl) h

pub Html-ref :
    (u text : Text)
    → Html text
    → Html
        (codes "<a class=\"ref\" href=\"" ++ (escape u ++ (codes "\">" ++ (text ++ codes "</a>"))))
unfolding tag attributes escape element_names attribute_names are_known contains_text text_eq
Html-ref u text h =
    Html-element (codes "a") ((codes "class", codes "ref") ∷ (codes "href", u) ∷ []) text _ refl
      refl (simp (append_assoc) refl) h

pub Html-picture :
    (u alt : Text)
    → Html (
        codes "<img src=\""
        ++ (escape u ++ (codes "\" alt=\"" ++ (escape alt ++ codes "\" loading=\"lazy\">"))))
unfolding tag attributes escape void_names attribute_names are_known contains_text text_eq
Html-picture u alt =
    void (codes "img")
      ((codes "src", u) ∷ (codes "alt", alt) ∷ (codes "loading", codes "lazy") ∷ []) refl refl
      (simp (append_assoc) refl) empty

-- An element without attributes.
pub Html-bare :
    (name text : Text)
    → contains_text element_names name ≡ true
    → Html text
    → Html ((b'<' ∷ (name ++ codes ">")) ++ (text ++ (codes "</" ++ (name ++ codes ">"))))
unfolding tag attributes are_known
Html-bare name text n h = Html-element name [] text _ n refl (simp (append_assoc) refl) h

-- References are written as they are.
pub escape_char-digit : (c : ℕ) → is_digit c ≡ true → escape_char c ≡ c ∷ []
unfolding escape_char is_digit
escape_char-digit c h = ground arith

escape_char-ref : (c : ℕ) → has_char (codes "tdar") c ≡ true → escape_char c ≡ c ∷ []
unfolding escape_char has_char
escape_char-ref c h = ground arith

pub Html-digits : (s : Text) → Html (digits s)
unfolding digits
Html-digits [] = empty
Html-digits (c ∷ s) = elim (Bool-cases (is_digit c)) [
  | inl e ↦ rw e (escaped c (ap (λ t. t ++ digits s) (sym (escape_char-digit c e))) (Html-digits s))
  | inr e ↦ rw e empty
]

ref_of-digits : (c : ℕ) (s r : Text) → ref_of (c ∷ s) ≡ some r → c ∷ digits s ≡ r
unfolding ref_of
ref_of-digits c s r e = ground arith

pub Html-ref_of :
    (c : ℕ) (s r : Text) → has_char (codes "tdar") c ≡ true → ref_of (c ∷ s) ≡ some r → Html r
Html-ref_of c s r h e =
    subst Html (ref_of-digits c s r e)
      (escaped c (ap (λ t. t ++ digits s) (sym (escape_char-ref c h))) (Html-digits s))
