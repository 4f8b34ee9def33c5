-- ===== src/Markdown/Safe.antt =====
-- internal/markdown/markdown.go: inline ends, and what it writes is HTML.
use hand.Base.{
  Bool, Option, Text, [], append_nil, arith, drop, length, length-drop_le, none, refl, some, subst,
  suc, sym, zero, ℕ, ◌++◌, ◌<◌, ◌∷◌, ◌≡◌, ◌≤◌,
}
use hand.Markdown.Escape.{escape_char}
use hand.Markdown.Scan.{Dead, Marked, Opts, Urls, none_dead}
use hand.Markdown.Inline.{after_round, inline, inline_from, next_round, written}
use hand.Markdown.Html.{Html, empty, escaped}
use hand.Markdown.Writing.{Html-append}
use hand.Markdown.Marks.{Marks, Returns, Writes, silent, wrote}
use hand.Markdown.Marker.{marker-lem}

pub Html-escape_char : (c : ℕ) → Html (escape_char c)
Html-escape_char c = escaped c (sym (append_nil (escape_char c))) empty

written-lem : (c : ℕ) {m : Option (Text × ℕ)} → Writes m → Html (written c m).0
written-lem c silent = Html-escape_char c
written-lem c (wrote zero h) = Html-escape_char c
written-lem c (wrote (suc n) h) = h

after_round-lem :
    (out : Text) (r : Option (Text × ℕ)) → Html out → Returns r → Returns (after_round out r)
after_round-lem out r h (rest, left, e, k) = (out ++ rest, left, rw e refl, Html-append h k)

same :
    {m m' : Option (Text × ℕ)} {dead dead' : Dead} {left left' : ℕ}
    → ◌≡◌ {A = Option Marked} (some (m, dead, left)) (some (m', dead', left'))
    → m' ≡ m
same e = cc

next_round-lem :
    (go : Dead → ℕ → Option ℕ → Text → Option (Text × ℕ)) (c : ℕ) (s : Text) (r : Option Marked)
    → Marks r
    → ((dead : Dead) (left : ℕ) (prev : Option ℕ) (t : Text)
        → length t ≤ length s
        → Returns (go dead left prev t))
    → Returns (next_round go c s r)
next_round-lem go c s none (m, dead, left, e, w) ih = ground arith
next_round-lem go c s (some (m, dead, left)) (m', dead', left', e, w) ih =
    let n = (written c m).1 in
    after_round-lem (written c m).0 _ (written-lem c {m = m} (subst Writes (same e) w))
      (ih dead left _ (drop n s) (length-drop_le n s))

inline_from-lem :
    (urls : Urls) (fuel : ℕ) (links : Bool) (o : Opts) (dead : Dead) (left : ℕ) (prev : Option ℕ)
    (s : Text)
    → length s < fuel
    → Returns (inline_from urls fuel links o dead left prev s)
unfolding inline_from
inline_from-lem urls zero links o dead left prev s lt = ground arith
inline_from-lem urls (suc fuel) links o dead left prev [] lt = ([], left, refl, empty)
inline_from-lem urls (suc fuel) links o dead left prev (c ∷ s) lt =
    next_round-lem _ c s _
      (marker-lem urls _ links o left dead prev c s _ refl (λ links' o' left' t le.
        inline_from-lem urls fuel links' o' none_dead left' none t (omega arith)))
      (λ dead' left' prev' t le.
        inline_from-lem urls fuel links o dead' left' prev' t (omega arith))

-- For every line, all options and whatever net/url says of links, inline ends and writes HTML.
pub inline-Html :
    (urls : Urls) (links : Bool) (o : Opts) (left : ℕ) (s : Text)
    → (out : Text) × (left' : ℕ) × (inline urls links o left s ≡ some (out, left')) × Html out
unfolding inline
inline-Html urls links o left s =
    inline_from-lem urls (suc (length s)) links o none_dead left none s (omega arith)
