-- ===== src/State/Screens.antt =====
-- internal/state/attempt.go, screenTail: the last 2048 bytes of a terminal's text, plain.
pub mod Plain
use hand.Base.{
  Bool, Option, Text, [], byte_len, if◌then◌else◌, is_control, leb, length, ltb, none, not,
  rune_len, some, suc, trim_space, zero, ℕ, ◌&&◌, ◌-◌, ◌==◌, ◌||◌, ◌∷◌,
}

abbrev pub screen_max : ℕ
screen_max = 2048

unfoldable pub skip_while : (ℕ → Bool) → Text → Text
skip_while p [] = []
skip_while p (c ∷ s) = let rest = skip_while p s in if p c then rest else c ∷ s

-- `[@-~]` of a control sequence, behind `[0-?]*[ -/]*`: the text after it, if it is there.
final_byte : Text → Option Text
final_byte [] = none
final_byte (c ∷ s) = if leb 0x40 c && leb c 0x7e then some s else none

csi_end : Text → Option Text
unfolding skip_while final_byte
csi_end s =
    final_byte
      (skip_while (λ c. leb 0x20 c && leb c 0x2f) (skip_while (λ c. leb 0x30 c && leb c 0x3f) s))

-- `(?:\x07|\x1b\\)?` behind `[^\x07\x1b]*`.
osc_close : Text → Text
osc_close [] = []
osc_close (c ∷ []) = if c == 7 then [] else c ∷ []
osc_close (c ∷ d ∷ s) = if c == 7 then d ∷ s else if c == 27 && d == 0x5c then s else c ∷ d ∷ s

osc_end : Text → Text
unfolding skip_while osc_close
osc_end s = osc_close (skip_while (λ c. not (c == 7 || c == 27)) s)

-- `[0-~]?` behind `[ -/]*`.
optional_byte : Text → Text
optional_byte [] = []
optional_byte (c ∷ s) = if leb 0x30 c && leb c 0x7e then s else c ∷ s

-- What is left after an escape character and the sequence that it begins.
unfoldable pub after_escape : Text → Text
unfolding csi_end osc_end optional_byte
after_escape [] = []
after_escape (c ∷ s) =
    if c == b'['
    then (elim (csi_end s) [ some rest ↦ rest | none ↦ s ])
    else if c == b']'
    then osc_end s
    else optional_byte (skip_while (λ d. leb 0x20 d && leb d 0x2f) (c ∷ s))

-- terminalEscape.ReplaceAllString(s, ""); the length of the text is fuel enough.
unfoldable pub strip_from : ℕ → Text → Text
unfolding after_escape
strip_from zero s = []
strip_from (suc fuel) [] = []
strip_from (suc fuel) (c ∷ s) =
    let rest = strip_from fuel (if c == 27 then after_escape s else s) in
    if c == 27 then rest else c ∷ rest

unfoldable pub strip_escapes : Text → Text
unfolding strip_from
strip_escapes s = strip_from (length s) s

-- unicode.Cf, the format characters.
unfoldable pub is_format : ℕ → Bool
is_format c =
    c == 0xad
    || (leb 0x600 c && leb c 0x605)
    || c == 0x61c
    || c == 0x6dd
    || c == 0x70f
    || (leb 0x890 c && leb c 0x891)
    || c == 0x8e2
    || c == 0x180e
    || (leb 0x200b c && leb c 0x200f)
    || (leb 0x202a c && leb c 0x202e)
    || (leb 0x2060 c && leb c 0x2064)
    || (leb 0x2066 c && leb c 0x206f)
    || c == 0xfeff
    || (leb 0xfff9 c && leb c 0xfffb)
    || c == 0x110bd
    || c == 0x110cd
    || (leb 0x13430 c && leb c 0x1343f)
    || (leb 0x1bca0 c && leb c 0x1bca3)
    || (leb 0x1d173 c && leb c 0x1d17a)
    || c == 0xe0001
    || (leb 0xe0020 c && leb c 0xe007f)

-- The strings.Map of screenTail.
unfoldable pub plain_screen : Text → Text
unfolding is_control is_format
plain_screen [] = []
plain_screen (c ∷ s) =
    let rest = plain_screen s in
    if c == 10
    then c ∷ rest
    else if c == 9
    then 32 ∷ rest
    else if is_control c || is_format c
    then rest
    else c ∷ rest

-- `s[cut:]`, with `cut` moved on to the start of a rune.
unfoldable pub drop_bytes : ℕ → Text → Text
unfolding rune_len
drop_bytes cut [] = []
drop_bytes cut (c ∷ s) =
    let rest = drop_bytes (cut - rune_len c) s in if cut == 0 then c ∷ s else rest

unfoldable pub screen_tail : Text → Text
unfolding strip_escapes plain_screen trim_space byte_len drop_bytes
screen_tail screen =
    let s = trim_space (plain_screen (strip_escapes screen)) in
    if ltb screen_max (byte_len s) then trim_space (drop_bytes (byte_len s - screen_max) s) else s
