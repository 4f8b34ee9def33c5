-- ===== src/Base/Texts.antt =====
-- Texts as lists of code points, with what the program uses of package strings and strconv.
use Prim.Native.Char.{code}
use Prim.Native.String.{String}
use Prim.Native.Nat.{ℕ, zero, suc, ◌+◌, ◌/◌, ◌%◌}
use mathlib.Core.Path.{◌≡◌, refl}
use mathlib.Core.Logic.{◌↔◌}
use mathlib.Core.Bool.{Bool, true, false, ◌&&◌, ◌||◌}
use mathlib.Core.List.{List, [], ◌∷◌, ◌++◌}
use native.Mathlib.Omega.{arith}
use mathlib.Core.Option
use mathlib.Core.Option.{Option, none, some}
use hand.Base.Tests.{leb, ltb, ◌==◌, if◌then◌else◌}
use hand.Base.Lists.{exists_where}

-- A Go string that is valid UTF-8, by its code points.
abbrev pub Text : Type 0
Text = List ℕ

abbrev pub codes : String → Text
codes String.[] = []
codes (String.◌∷◌ c s) = code c ∷ codes s

unfoldable pub text_eq : Text → Text → Bool
text_eq [] [] = true
text_eq (a ∷ s) (b ∷ t) = a == b && text_eq s t
text_eq _ _ = false

pub text_eq→eq : (s t : Text) → text_eq s t ≡ true → s ≡ t
unfolding text_eq
text_eq→eq [] [] h = refl
text_eq→eq [] (b ∷ t) h = ground arith
text_eq→eq (a ∷ s) [] h = ground arith
text_eq→eq (a ∷ s) (b ∷ t) h = ground (arith, text_eq→eq s t)

pub text_eq_refl : (s : Text) → text_eq s s ≡ true
unfolding text_eq
text_eq_refl [] = refl
text_eq_refl (a ∷ s) = ground (arith, text_eq_refl s)

pub text_eq_iff : (s t : Text) → (text_eq s t ≡ true) ↔ (s ≡ t)
text_eq_iff s t = (text_eq→eq s t, λ e. ground (arith, text_eq_refl s, e))

abbrev pub is_empty : Text → Bool
is_empty [] = true
is_empty (c ∷ s) = false

-- slices.Contains on a list of strings.
unfoldable pub contains_text : List Text → Text → Bool
unfolding text_eq
contains_text [] s = false
contains_text (t ∷ ts) s = text_eq t s || contains_text ts s

-- unicode.IsSpace.
unfoldable pub is_space : ℕ → Bool
is_space c =
    (leb 9 c && leb c 13)
    || c == 32
    || c == 0x85
    || c == 0xa0
    || c == 0x1680
    || (leb 0x2000 c && leb c 0x200a)
    || c == 0x2028
    || c == 0x2029
    || c == 0x202f
    || c == 0x205f
    || c == 0x3000

-- unicode.IsControl.
unfoldable pub is_control : ℕ → Bool
is_control c = ltb c 32 || (leb 0x7f c && ltb c 0xa0)

unfoldable pub trim_left : Text → Text
unfolding is_space
trim_left [] = []
trim_left (c ∷ s) = let rest = trim_left s in if is_space c then rest else c ∷ s

unfoldable pub trim_right : Text → Text
unfolding is_space
trim_right [] = []
trim_right (c ∷ s) = elim (trim_right s) [
  | [] ↦ if is_space c then [] else c ∷ []
  | d ∷ t ↦ c ∷ d ∷ t
]

-- strings.TrimSpace.
unfoldable pub trim_space : Text → Text
unfolding trim_left trim_right
trim_space s = trim_right (trim_left s)

-- strings.ContainsAny(s, "\r\n").
unfoldable pub has_line_break : Text → Bool
has_line_break = exists_where (λ c. c == 13 || c == 10)

-- How many bytes the UTF-8 of a code point takes, and of a text: len(s).
unfoldable pub rune_len : ℕ → ℕ
rune_len c = if ltb c 0x80 then 1 else if ltb c 0x800 then 2 else if ltb c 0x10000 then 3 else 4

unfoldable pub byte_len : Text → ℕ
unfolding rune_len
byte_len [] = 0
byte_len (c ∷ s) = rune_len c + byte_len s

unfoldable pub starts_with : Text → Text → Bool
starts_with [] s = true
starts_with (a ∷ p) [] = false
starts_with (a ∷ p) (b ∷ s) = a == b && starts_with p s

-- strings.HasSuffix.
unfoldable pub ends_with : Text → Text → Bool
unfolding text_eq
ends_with suffix [] = text_eq suffix []
ends_with suffix (c ∷ s) = text_eq suffix (c ∷ s) || ends_with suffix s

-- Decimal digits, least significant last, from at most `fuel` divisions by ten.
unfoldable pub decimal_from : ℕ → ℕ → Text → Text
decimal_from zero n acc = acc
decimal_from (suc fuel) n acc =
    let rest = decimal_from fuel (n / 10) ((n % 10 + 48) ∷ acc) in if n == 0 then acc else rest

-- strconv.FormatInt(n, 10) of a number that is not negative.
unfoldable pub decimal : ℕ → Text
unfolding decimal_from
decimal n = if n == 0 then 48 ∷ [] else decimal_from n n []

-- The words of a text, cut at white space; `word` is the word being read, reversed.
unfoldable pub words_from : Text → Text → List Text
unfolding is_space
words_from word [] = if is_empty word then [] else word ∷ []
words_from word (c ∷ s) =
    let skip = words_from [] s in
    let keep = words_from (word ++ c ∷ []) s in
    if is_space c then (if is_empty word then skip else word ∷ skip) else keep

-- strings.Fields.
unfoldable pub fields : Text → List Text
unfolding words_from
fields s = words_from [] s

-- strings.Join.
unfoldable pub join : Text → List Text → Text
join sep [] = []
join sep (w ∷ []) = w
join sep (w ∷ v ∷ ws) = w ++ sep ++ join sep (v ∷ ws)

-- strings.Join(strings.Fields(s), " ").
unfoldable pub one_line : Text → Text
unfolding fields join
one_line s = join (32 ∷ []) (fields s)

-- strings.Index, in characters; `none` for -1.
unfoldable pub index : Text → Text → Option ℕ
unfolding starts_with
index needle [] = if is_empty needle then some 0 else none
index needle (c ∷ s) =
    if starts_with needle (c ∷ s) then some 0 else Option.map suc (index needle s)

-- The character before, once `s` has been read.
abbrev pub last_of : Option ℕ → Text → Option ℕ
last_of prev [] = prev
last_of prev (c ∷ s) = last_of (some c) s
