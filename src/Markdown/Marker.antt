-- ===== src/Markdown/Marker.antt =====
-- internal/markdown/markdown.go: every case of scan.marker ends and writes HTML, if the inner calls do.
use hand.Base.{
  Bool, Option, Text, [], ap, append_assoc, arith, codes, contains_text, drop, false, if◌then◌else◌,
  is_empty, length, length-drop_le, length-take_le, ltb, none, not, refl, some, subst, suc, sym,
  take, text_eq, true, ℕ, ◌&&◌, ◌++◌, ◌+◌, ◌-◌, ◌∙◌, ◌∷◌, ◌≡◌, ◌≤◌,
}
use hand.Markdown.Escape.{escape, escape_char}
use hand.Markdown.Places.{has_char, ref_of, token}
use hand.Markdown.Ends.{Found, here, link_parts, never, nothing, pair_end}
use hand.Markdown.Scan.{
  Dead, Mark, Marked, Nested, Opts, Urls, anchor_head, emphasis, emphasis_at, enclosed, file,
  is_behind, link, link_at, link_head, linked, mark_emphasis, mark_file, mark_link, mark_of,
  mark_picture, mark_ref, mark_stars, mark_tick, mark_tildes, mark_web, marker, no_opts, pair_at,
  path, picture, picture_at, plain, ref, ref_at, stars, tick, tick_at, tildes, web,
}
use hand.Markdown.Html.{Html, element_names, empty, escaped}
use hand.Markdown.Writing.{Html-escape}
use hand.Markdown.Marks.{
  Html-anchor, Html-bare, Html-link, Html-path_link, Html-picture, Html-ref, Html-ref_of, Marks,
  Returns, Writes, silent, wrote,
}

Writes-if : (b : Bool) {x y : Option (Text × ℕ)} → Writes x → Writes y → Writes (if b then x else y)
Writes-if true h k = h
Writes-if false h k = k

Html-if : (b : Bool) {s t : Text} → Html s → Html t → Html (if b then s else t)
Html-if true h k = h
Html-if false h k = k

Marks-if : (b : Bool) {x y : Option Marked} → Marks x → Marks y → Marks (if b then x else y)
Marks-if true h k = h
Marks-if false h k = k

-- What `linked` writes of an anchor.
Html-anchored :
    (urls : Urls) (raw text : Text)
    → Html text
    → Html (
        (codes "<a href=\""
          ++ (escape (urls.spelled raw)
              ++ codes "\" target=\"_blank\" rel=\"noopener noreferrer\">"))
        ++ (text ++ codes "</a>"))
Html-anchored urls raw text h =
    subst Html (sym (simp (append_assoc) refl)) (Html-anchor urls raw text h)

enclosed-lem :
    (name : Text) (n : ℕ) (dead : Dead) (r : Option (Text × ℕ))
    → contains_text element_names name ≡ true
    → Returns r
    → Marks (enclosed (b'<' ∷ (name ++ codes ">")) (codes "</" ++ (name ++ codes ">")) n dead r)
enclosed-lem name n dead r k (out, left, e, h) = (
  some ((b'<' ∷ (name ++ codes ">")) ++ (out ++ (codes "</" ++ (name ++ codes ">"))), n),
  dead,
  left,
  rw e refl,
  wrote n (Html-bare name out k h),
)

linked-lem :
    (head : Text) (n : ℕ) (dead : Dead) (left : ℕ) (r : Option (Text × ℕ))
    → ((out : Text) → Html out → Html (head ++ (out ++ codes "</a>")))
    → Returns r
    → Marks (linked head (codes "</a>") n dead left r)
linked-lem head n dead left r k (out, spent, e, h) =
    (some (head ++ (out ++ codes "</a>"), n), dead, left, rw e refl, wrote n (k out h))

tick_at-lem :
    (links : Bool) (o : Opts) (left : ℕ) (dead : Dead) (s : Text) (f : Found)
    → Writes (tick_at links o left dead s f).0
unfolding tick_at element_names contains_text text_eq
tick_at-lem links o left dead s nothing = silent
tick_at-lem links o left dead s never = silent
tick_at-lem links o left dead s (here j) =
    let href = (path links o left (take j s)).0 in
    let text = codes "<code>" ++ (escape (take j s) ++ codes "</code>") in
    wrote (j + 2) (
      Html-if (is_empty href) (Html-code (take j s))
        (Html-path_link href text (Html-code (take j s))))
  where
    Html-code : (text : Text) → Html (codes "<code>" ++ (escape text ++ codes "</code>"))
    Html-code text = Html-bare (codes "code") (escape text) refl (Html-escape text)

pair_at-lem :
    (name : Text) (nested : Nested) (links : Bool) (o : Opts) (left : ℕ) (dead spent : Dead)
    (as_is s : Text) (f : Found)
    → contains_text element_names name ≡ true
    → Html as_is
    → ((t : Text) → length t ≤ length s → Returns (nested links o left t))
    → Marks (
        pair_at as_is
          (b'<' ∷ (name ++ codes ">"))
          (codes "</" ++ (name ++ codes ">"))
          nested
          links
          o
          left
          dead
          spent
          s
          f)
unfolding pair_at
pair_at-lem name nested links o left dead spent as_is s nothing k h ih =
    (some (as_is, 2), dead, left, refl, wrote 2 h)
pair_at-lem name nested links o left dead spent as_is s never k h ih =
    (some (as_is, 2), spent, left, refl, wrote 2 h)
pair_at-lem name nested links o left dead spent as_is s (here j) k h ih =
    enclosed-lem name (j + 4) dead _ k
      (ih (take j (drop 1 s)) (omega (arith, length-take_le j (drop 1 s), length-drop_le 1 s)))

emphasis_at-lem :
    (nested : Nested) (links : Bool) (o : Opts) (left : ℕ) (dead : Dead) (c : ℕ) (s : Text)
    (f : Found)
    → ((t : Text) → length t ≤ length s → Returns (nested links o left t))
    → Marks (emphasis_at nested links o left dead c s f)
unfolding emphasis_at element_names contains_text text_eq
emphasis_at-lem nested links o left dead c s nothing ih = (none, dead, left, refl, silent)
emphasis_at-lem nested links o left dead c s never ih = (none, _, left, refl, silent)
emphasis_at-lem nested links o left dead c s (here j) ih =
    enclosed-lem (codes "em") (j + 3) dead _ refl (ih (take (suc j) s) (length-take_le (suc j) s))

picture_at-lem :
    (urls : Urls) (left : ℕ) (dead : Dead) (s : Text) (parts : Option (ℕ × ℕ))
    → Writes (picture_at urls left dead s parts).0
unfolding picture_at
picture_at-lem urls left dead s none = silent
picture_at-lem urls left dead s (some (mid, end)) =
    let u = take end (drop (mid + 2) s) in
    Writes-if (urls.is_relative u)
      (wrote (mid + 4 + end) (Html-picture u (take (mid - 1) (drop 1 s)))) silent

link_at-lem :
    (urls : Urls) (nested : Nested) (o : Opts) (left : ℕ) (dead : Dead) (c : ℕ) (s : Text)
    (parts : Option (ℕ × ℕ))
    → ((t : Text) → length t ≤ length s → Returns (nested false no_opts 0 t))
    → Marks (link_at urls nested o left dead (c ∷ s) parts)
unfolding link_at
link_at-lem urls nested o left dead c s none ih = (none, _, left, refl, silent)
link_at-lem urls nested o left dead c s (some (mid, end)) ih =
    let u = take end (drop (mid + 2) (c ∷ s)) in
    let text = ih (take (mid - 1) s) (length-take_le (mid - 1) s) in
    Marks-if (ltb mid 1) (none, dead, left, refl, silent)
      (Marks-if (o.doc && urls.is_relative u)
        (linked-lem (link_head u) (mid + 3 + end) dead left _ (Html-link u) text)
        (Marks-if (not (urls.is_safe u)) (none, dead, left, refl, silent)
          (linked-lem (anchor_head urls u) (mid + 3 + end) dead left _ (Html-anchored urls u)
            text)))

web-lem : (urls : Urls) (left : ℕ) (dead : Dead) (s : Text) → Writes (mark_web urls left dead s).0
unfolding mark_web
web-lem urls left dead s =
    Writes-if (urls.is_safe (token s))
      (wrote (length (token s)) (Html-anchor urls (token s) _ (Html-escape (token s)))) silent

file-lem :
    (links : Bool) (o : Opts) (left : ℕ) (dead : Dead) (s : Text)
    → Writes (mark_file links o left dead s).0
unfolding mark_file
file-lem links o left dead s =
    let href = (path links o left (token s)).0 in
    Writes-if (is_empty href) silent
      (wrote (length (token s)) (Html-path_link href _ (Html-escape (token s))))

ref_at-lem :
    (o : Opts) (left : ℕ) (dead : Dead) (c : ℕ) (s : Text) (r : Option Text)
    → has_char (codes "tdar") c ≡ true
    → ref_of (c ∷ s) ≡ r
    → Writes (ref_at o left dead r).0
unfolding ref_at
ref_at-lem o left dead c s none h e = silent
ref_at-lem o left dead c s (some r) h e =
    wrote (length r) (Html-ref (o.refs ++ r) r (Html-ref_of c s r h e))

is_not_ref : Mark → Bool
is_not_ref ref = false
is_not_ref m = true

differ : false ≡ true → ⊥
differ e = cc

past :
    (b : Bool) (x : Mark) {y : Mark}
    → is_not_ref x ≡ true
    → (if b then x else y) ≡ Mark.ref
    → y ≡ Mark.ref
unfolding is_not_ref
past true x ne e = absurd (differ (ap is_not_ref (sym e) ∙ ne))
past false x ne e = e

taken : (b : Bool) → (if b then Mark.ref else Mark.plain) ≡ Mark.ref → b ≡ true
taken true e = refl
taken false e = cc

middle : (a b c : Bool) → (a && b && c) ≡ true → b ≡ true
middle a b c e = ground arith

-- The switch tests the letter of a reference.
mark_of-ref :
    (links : Bool) (o : Opts) (left : ℕ) (dead : Dead) (prev : Option ℕ) (c : ℕ) (s : Text)
    → mark_of links o left dead prev c s ≡ Mark.ref
    → has_char (codes "tdar") c ≡ true
unfolding mark_of is_not_ref
mark_of-ref links o left dead prev c s e =
    middle (not (is_empty o.refs)) _ (is_behind (codes "/\\_") prev) (
      taken _ (
        past _ Mark.file refl (
          past _ Mark.web refl (
            past _ Mark.link refl (
              past _ Mark.picture refl (
                past _ (Mark.emphasis c) refl
                  (past _ Mark.stars refl (past _ Mark.tildes refl (past _ Mark.tick refl e)))))))))

two : (c : ℕ) → escape_char c ≡ c ∷ [] → Html (c ∷ c ∷ [])
two c e = escaped c (ap (λ t. t ++ (c ∷ [])) (sym e)) (escaped c (ap (λ t. t ++ []) (sym e)) empty)

said : (m : Marked) → Writes m.0 → Marks (some m)
said m h = (m.0, m.1, m.2, refl, h)

-- Each case of scan.marker ends and writes HTML, if the inner calls of inline do.
pub marker-lem :
    (urls : Urls) (nested : Nested) (links : Bool) (o : Opts) (left : ℕ) (dead : Dead)
    (prev : Option ℕ) (c : ℕ) (s : Text) (m : Mark)
    → mark_of links o left dead prev c s ≡ m
    → ((links' : Bool) (o' : Opts) (left' : ℕ) (t : Text)
        → length t ≤ length s
        → Returns (nested links' o' left' t))
    → Marks (marker urls nested links o left dead prev c s m)
unfolding marker mark_tick mark_tildes mark_stars mark_emphasis mark_picture mark_link mark_ref
    element_names contains_text text_eq escape_char
marker-lem urls nested links o left dead prev c s tick e ih =
    said _ (tick_at-lem links o left dead s (pair_end (codes "`") s))
marker-lem urls nested links o left dead prev c s tildes e ih =
    pair_at-lem (codes "del") nested links o left dead (record dead { tildes = true }) (codes "~~")
      s _ refl (two b'~' refl) (ih links o left)
marker-lem urls nested links o left dead prev c s stars e ih =
    pair_at-lem (codes "strong") nested links o left dead (record dead { stars = true })
      (codes "**") s _ refl (two b'*' refl) (ih links o left)
marker-lem urls nested links o left dead prev c s (emphasis k) e ih =
    emphasis_at-lem nested links o left dead k s _ (ih links o left)
marker-lem urls nested links o left dead prev c s picture e ih =
    said _ (picture_at-lem urls left dead s (link_parts s))
marker-lem urls nested links o left dead prev c s link e ih =
    link_at-lem urls nested o left dead c s (link_parts (c ∷ s)) (ih false no_opts 0)
marker-lem urls nested links o left dead prev c s web e ih = said _ (web-lem urls left dead (c ∷ s))
marker-lem urls nested links o left dead prev c s file e ih =
    said _ (file-lem links o left dead (c ∷ s))
marker-lem urls nested links o left dead prev c s ref e ih =
    said _
      (ref_at-lem o left dead c s (ref_of (c ∷ s)) (mark_of-ref links o left dead prev c s e) refl)
marker-lem urls nested links o left dead prev c s plain e ih = (none, dead, left, refl, silent)
