-- ===== src/Markdown/Scan.antt =====
-- internal/markdown/markdown.go: scan.marker, which reads a mark in a line.
use hand.Base.{
  Bool, Option, Text, [], codes, drop, false, if◌then◌else◌, is_empty, length, ltb, none, not, some,
  starts_with, suc, take, true, ℕ, ◌&&◌, ◌++◌, ◌+◌, ◌-◌, ◌==◌, ◌||◌, ◌∷◌,
}
use hand.Markdown.Escape.{escape}
use hand.Markdown.Places.{has_char, is_word, path_like, ref_of, rel_like, token}
use hand.Markdown.Ends.{Found, closing, here, link_parts, never, nothing, pair_end}

-- What net/url says of a link: whether `safe` and `relative` take it, and how u.String() spells it.
pub record Urls : Type 0 where
  pub is_safe : Text → Bool
  pub is_relative : Text → Bool
  pub spelled : Text → Text

-- opts, less the count of the paths that are left.
pub record Opts : Type 0 where
  pub refs : Text
  pub doc : Bool
  pub local : Option (Text → Text)

abbrev pub no_opts : Opts
no_opts = record { refs = []; doc = false; local = none }

-- The keys of `dead`.
pub record Dead : Type 0 where
  pub tick : Bool
  pub tildes : Bool
  pub stars : Bool
  pub star : Bool
  pub under : Bool
  pub bracket : Bool

abbrev pub none_dead : Dead
none_dead = record {
  tick = false;
  tildes = false;
  stars = false;
  star = false;
  under = false;
  bracket = false;
}

-- scan.room, with the paths that are left.
unfoldable pub room : Bool → Opts → ℕ → Bool
room links o left = links && (elim o.local [ none ↦ false | some f ↦ true ]) && ltb 0 left

-- scan.path: an empty text for no link, and the paths that are left.
unfoldable pub path : Bool → Opts → ℕ → Text → Text × ℕ
unfolding room path_like rel_like
path links o left p =
    if not (room links o left) || (not (path_like p) && not (rel_like p))
    then ([], left)
    else ((elim o.local [ none ↦ [] | some f ↦ f p ]), left - 1)

abbrev pub path_link : Text → Text → Text
path_link href text =
    codes "<a class=\"path\" href=\""
    ++ (escape href ++ (codes "\" target=\"_blank\" rel=\"noopener\">" ++ (text ++ codes "</a>")))

abbrev pub anchor : Urls → Text → Text → Text
anchor urls raw text =
    codes "<a href=\""
    ++ (escape (urls.spelled raw)
        ++ (codes "\" target=\"_blank\" rel=\"noopener noreferrer\">" ++ (text ++ codes "</a>")))

-- The cases of scan.marker's switch.
pub data Mark : Type 0 where
  tick : Mark
  tildes : Mark
  stars : Mark
  emphasis : ℕ → Mark
  picture : Mark
  link : Mark
  web : Mark
  file : Mark
  ref : Mark
  plain : Mark

-- Is the character before none, or other than a letter and these?
unfoldable pub is_behind : Text → Option ℕ → Bool
unfolding is_word has_char
is_behind others none = true
is_behind others (some c) = not (is_word c) && not (has_char others c)

unfoldable pub mark_of : Bool → Opts → ℕ → Dead → Option ℕ → ℕ → Text → Mark
unfolding starts_with is_behind room path_like has_char
mark_of links o left dead prev c s =
    if c == b'`' && not dead.tick
    then Mark.tick
    else if starts_with (codes "~~") (c ∷ s)
    then Mark.tildes
    else if starts_with (codes "**") (c ∷ s)
    then Mark.stars
    else if (c == b'*' && not dead.star) || (c == b'_' && not dead.under)
    then Mark.emphasis c
    else if starts_with (codes "![") (c ∷ s) && links && o.doc && not dead.bracket
    then Mark.picture
    else if c == b'[' && links && not dead.bracket
    then Mark.link
    else if links
        && (starts_with (codes "http://") (c ∷ s) || starts_with (codes "https://") (c ∷ s))
        && is_behind (codes "/") prev
    then Mark.web
    else if room links o left && path_like (c ∷ s) && is_behind (codes "/\\.~-_:") prev
    then Mark.file
    else if not (is_empty o.refs) && has_char (codes "tdar") c && is_behind (codes "/\\_") prev
    then Mark.ref
    else Mark.plain

-- What scan.marker gives: what to write and how much it has read, or nothing for 0; `dead`, and how
-- many paths are left.
abbrev pub Marked : Type 0
Marked = Option (Text × ℕ) × Dead × ℕ

-- inline, as scan.marker calls it: by `links`, the options, the paths left and the text.
abbrev pub Nested : Type 0
Nested = Bool → Opts → ℕ → Text → Option (Text × ℕ)

-- A part of the text that is written inside an element.
abbrev pub enclosed : Text → Text → ℕ → Dead → Option (Text × ℕ) → Option Marked
enclosed head foot n dead none = none
enclosed head foot n dead (some (out, left)) = some (some (head ++ (out ++ foot), n), dead, left)

unfoldable pub tick_at : Bool → Opts → ℕ → Dead → Text → Found → Marked
unfolding path escape
tick_at links o left dead s nothing = (none, dead, left)
tick_at links o left dead s never = (none, record dead { tick = true }, left)
tick_at links o left dead s (here j) =
    let text = take j s in
    let (href, left') = path links o left text in
    let code = codes "<code>" ++ (escape text ++ codes "</code>") in
    (some ((if is_empty href then code else path_link href code), j + 2), dead, left')

unfoldable pub mark_tick : Bool → Opts → ℕ → Dead → Text → Marked
unfolding pair_end tick_at
mark_tick links o left dead s = tick_at links o left dead s (pair_end (codes "`") s)

-- A mark of two characters, `as_is`; `spent` is `dead` where the mark has no end.
unfoldable pub pair_at :
    Text → Text → Text → Nested → Bool → Opts → ℕ → Dead → Dead → Text → Found → Option Marked
pair_at as_is head foot nested links o left dead spent s nothing =
    some (some (as_is, 2), dead, left)
pair_at as_is head foot nested links o left dead spent s never = some (some (as_is, 2), spent, left)
pair_at as_is head foot nested links o left dead spent s (here j) =
    enclosed head foot (j + 4) dead (nested links o left (take j (drop 1 s)))

unfoldable pub mark_tildes : Nested → Bool → Opts → ℕ → Dead → Text → Option Marked
unfolding pair_end pair_at
mark_tildes nested links o left dead s =
    pair_at (codes "~~") (codes "<del>") (codes "</del>") nested links o left dead
      (record dead { tildes = true }) s
      (if dead.tildes then Found.nothing else pair_end (codes "~~") (drop 1 s))

unfoldable pub mark_stars : Nested → Bool → Opts → ℕ → Dead → Text → Option Marked
unfolding pair_end pair_at
mark_stars nested links o left dead s =
    pair_at (codes "**") (codes "<strong>") (codes "</strong>") nested links o left dead
      (record dead { stars = true }) s
      (if dead.stars then Found.nothing else pair_end (codes "**") (drop 1 s))

unfoldable pub emphasis_at : Nested → Bool → Opts → ℕ → Dead → ℕ → Text → Found → Option Marked
emphasis_at nested links o left dead c s nothing = some (none, dead, left)
emphasis_at nested links o left dead c s never =
    some (
      none,
      (if c == b'*' then record dead { star = true } else record dead { under = true }),
      left,
    )
emphasis_at nested links o left dead c s (here j) =
    enclosed (codes "<em>") (codes "</em>") (j + 3) dead (nested links o left (take (suc j) s))

unfoldable pub mark_emphasis : Nested → Bool → Opts → ℕ → Dead → Option ℕ → ℕ → Text → Option Marked
unfolding closing emphasis_at
mark_emphasis nested links o left dead prev c s =
    emphasis_at nested links o left dead c s (closing prev c s)

unfoldable pub picture_at : Urls → ℕ → Dead → Text → Option (ℕ × ℕ) → Marked
unfolding escape
picture_at urls left dead rest none = (none, record dead { bracket = true }, left)
picture_at urls left dead rest (some (mid, end)) =
    let u = take end (drop (mid + 2) rest) in
    let out =
      codes "<img src=\""
      ++ (escape u
          ++ (codes "\" alt=\""
              ++ (escape (take (mid - 1) (drop 1 rest)) ++ codes "\" loading=\"lazy\">"))) in
    ((if urls.is_relative u then some (out, mid + 4 + end) else none), dead, left)

-- picture, on what stands behind the "!".
unfoldable pub mark_picture : Urls → ℕ → Dead → Text → Marked
unfolding link_parts picture_at
mark_picture urls left dead rest = picture_at urls left dead rest (link_parts rest)

-- link. The inner call of inline has a count of its own, which no path is left of.
abbrev pub linked : Text → Text → ℕ → Dead → ℕ → Option (Text × ℕ) → Option Marked
linked head foot n dead left none = none
linked head foot n dead left (some (out, spent)) =
    some (some (head ++ (out ++ foot), n), dead, left)

abbrev pub link_head : Text → Text
link_head u = codes "<a href=\"" ++ (escape u ++ codes "\">")

-- What anchor writes before its text.
abbrev pub anchor_head : Urls → Text → Text
anchor_head urls u =
    codes "<a href=\""
    ++ (escape (urls.spelled u) ++ codes "\" target=\"_blank\" rel=\"noopener noreferrer\">")

unfoldable pub link_at : Urls → Nested → Opts → ℕ → Dead → Text → Option (ℕ × ℕ) → Option Marked
unfolding escape
link_at urls nested o left dead rest none = some (none, record dead { bracket = true }, left)
link_at urls nested o left dead rest (some (mid, end)) =
    let u = take end (drop (mid + 2) rest) in
    let text = nested false no_opts 0 (take (mid - 1) (drop 1 rest)) in
    if ltb mid 1
    then some (none, dead, left)
    else if o.doc && urls.is_relative u
    then linked (link_head u) (codes "</a>") (mid + 3 + end) dead left text
    else if not (urls.is_safe u)
    then some (none, dead, left)
    else linked (anchor_head urls u) (codes "</a>") (mid + 3 + end) dead left text

unfoldable pub mark_link : Urls → Nested → Opts → ℕ → Dead → Text → Option Marked
unfolding link_parts link_at
mark_link urls nested o left dead rest = link_at urls nested o left dead rest (link_parts rest)

unfoldable pub mark_web : Urls → ℕ → Dead → Text → Marked
unfolding token escape
mark_web urls left dead rest =
    let u = token rest in
    ((if urls.is_safe u then some (anchor urls u (escape u), length u) else none), dead, left)

unfoldable pub mark_file : Bool → Opts → ℕ → Dead → Text → Marked
unfolding token path escape
mark_file links o left dead rest =
    let p = token rest in
    let (href, left') = path links o left p in
    ((if is_empty href then none else some (path_link href (escape p), length p)), dead, left')

unfoldable pub ref_at : Opts → ℕ → Dead → Option Text → Marked
unfolding escape
ref_at o left dead none = (none, dead, left)
ref_at o left dead (some r) = (
  some (
    codes "<a class=\"ref\" href=\""
        ++ (escape (o.refs ++ r) ++ (codes "\">" ++ (r ++ codes "</a>"))),
    length r,
  ),
  dead,
  left,
)

unfoldable pub mark_ref : Opts → ℕ → Dead → Text → Marked
unfolding ref_of ref_at
mark_ref o left dead rest = ref_at o left dead (ref_of rest)

-- scan.marker at a character `c` with `s` behind it.
unfoldable pub marker :
    Urls → Nested → Bool → Opts → ℕ → Dead → Option ℕ → ℕ → Text → Mark → Option Marked
unfolding mark_tick mark_tildes mark_stars mark_emphasis mark_picture mark_link mark_web mark_file
    mark_ref
marker urls nested links o left dead prev c s tick = some (mark_tick links o left dead s)
marker urls nested links o left dead prev c s tildes = mark_tildes nested links o left dead s
marker urls nested links o left dead prev c s stars = mark_stars nested links o left dead s
marker urls nested links o left dead prev c s (emphasis m) =
    mark_emphasis nested links o left dead prev m s
marker urls nested links o left dead prev c s picture = some (mark_picture urls left dead s)
marker urls nested links o left dead prev c s link = mark_link urls nested o left dead (c ∷ s)
marker urls nested links o left dead prev c s web = some (mark_web urls left dead (c ∷ s))
marker urls nested links o left dead prev c s file = some (mark_file links o left dead (c ∷ s))
marker urls nested links o left dead prev c s ref = some (mark_ref o left dead (c ∷ s))
marker urls nested links o left dead prev c s plain = some (none, dead, left)
