-- ===== src/State/Screens/Plain.antt =====
-- screenTail: the fuel of the strip is enough, and what is kept is plain text.
use hand.Base.{
  All, Bool, Bool-cases, Option-cases, Text, [], ap, arith, byte_len, if◌then◌else◌, inl, inr,
  is_control, is_space, leb, length, ltb, none, not, refl, rune_len, some, suc, sym, trim_left,
  trim_right, trim_space, true, zero, ℕ, ◌&&◌, ◌-◌, ◌==◌, ◌||◌, ◌∷◌, ◌≡◌, ◌≤◌,
}
use hand.State.Screens.{
  after_escape, drop_bytes, is_format, plain_screen, screen_max, screen_tail, skip_while,
  strip_escapes, strip_from,
}
use hand.State.Screens.{final_byte, csi_end, osc_close, osc_end, optional_byte}

skip_while-length : (p : ℕ → Bool) (s : Text) → length (skip_while p s) ≤ length s
unfolding skip_while
skip_while-length p [] = omega arith
skip_while-length p (c ∷ s) = ground (arith, skip_while-length p s)

final_byte-length : (s t : Text) → final_byte s ≡ some t → length t ≤ length s
unfolding final_byte
final_byte-length [] t e = cc
final_byte-length (c ∷ s) t e = elim (Bool-cases (leb 0x40 c && leb c 0x7e)) [
  | inl q ↦ let same : s ≡ t = some_text s t (rw q at e) in rw (sym same) (omega arith)
  | inr q ↦ absurd (none_text t (rw q at e))
]
  where
    some_text : (a b : Text) → some a ≡ some b → a ≡ b
    some_text a b h = cc

    none_text : (t : Text) → none ≡ some t → ⊥
    none_text t h = cc

csi_end-length : (s t : Text) → csi_end s ≡ some t → length t ≤ length s
unfolding csi_end
csi_end-length s t e =
    let digits = skip_while (λ c. leb 0x30 c && leb c 0x3f) s in
    let marks = skip_while (λ c. leb 0x20 c && leb c 0x2f) digits in
    omega (
      arith,
      final_byte-length marks t e,
      skip_while-length (λ c. leb 0x20 c && leb c 0x2f) digits,
      skip_while-length (λ c. leb 0x30 c && leb c 0x3f) s,
    )

osc_close-length : (s : Text) → length (osc_close s) ≤ length s
unfolding osc_close
osc_close-length [] = omega arith
osc_close-length (c ∷ []) = ground arith
osc_close-length (c ∷ d ∷ s) = ground arith

osc_end-length : (s : Text) → length (osc_end s) ≤ length s
unfolding osc_end
osc_end-length s = omega (
  arith,
  osc_close-length (skip_while (λ c. not (c == 7 || c == 27)) s),
  skip_while-length (λ c. not (c == 7 || c == 27)) s,
)

optional_byte-length : (s : Text) → length (optional_byte s) ≤ length s
unfolding optional_byte
optional_byte-length [] = omega arith
optional_byte-length (c ∷ s) = ground arith

after_escape-length : (s : Text) → length (after_escape s) ≤ length s
unfolding after_escape
after_escape-length [] = omega arith
after_escape-length (c ∷ s) = elim (Bool-cases (c == b'[')) [
  | inl e ↦ rw e (elim (Option-cases (csi_end s)) [
    | inl q ↦ rw q (omega arith)
    | inr (t, q) ↦ rw q (omega (arith, csi_end-length s t q))
  ])
  | inr e ↦ rw e (elim (Bool-cases (c == b']')) [
    | inl q ↦ rw q (omega (arith, osc_end-length s))
    | inr q ↦ rw q (
        omega (
          arith,
          optional_byte-length (skip_while (λ d. leb 0x20 d && leb d 0x2f) (c ∷ s)),
          skip_while-length (λ d. leb 0x20 d && leb d 0x2f) (c ∷ s),
        ))
  ])
]

same_fuel : (f g : ℕ) (s : Text) → length s ≤ f → length s ≤ g → strip_from f s ≡ strip_from g s
unfolding strip_from
same_fuel zero zero s h k = refl
same_fuel zero (suc g) [] h k = refl
same_fuel zero (suc g) (c ∷ s) h k = absurd (omega arith)
same_fuel (suc f) zero [] h k = refl
same_fuel (suc f) zero (c ∷ s) h k = absurd (omega arith)
same_fuel (suc f) (suc g) [] h k = refl
same_fuel (suc f) (suc g) (c ∷ s) h k = elim (Bool-cases (c == 27)) [
  | inl e ↦ rw e (
      same_fuel f g (after_escape s) (omega (arith, after_escape-length s))
        (omega (arith, after_escape-length s)))
  | inr e ↦ rw e (ap (λ t. c ∷ t) (same_fuel f g s (omega arith) (omega arith)))
]

-- The text's length is fuel enough to strip it: with more the result is the same.
strip_from-enough : (fuel : ℕ) (s : Text) → length s ≤ fuel → strip_from fuel s ≡ strip_escapes s
unfolding strip_escapes
strip_from-enough fuel s h = same_fuel fuel (length s) s h (omega arith)

-- A character that may be kept.
abbrev pub is_plain : ℕ → Bool
is_plain c = c == 10 || not (is_control c || is_format c)

space_is_plain : is_plain 32 ≡ true
unfolding is_control is_format
space_is_plain = refl

plain_screen-All : (s : Text) → All (λ c. is_plain c ≡ true) (plain_screen s)
unfolding plain_screen
plain_screen-All [] = tt
plain_screen-All (c ∷ s) = elim (Bool-cases (c == 10)) [
  | inl e ↦ rw e (ground arith, plain_screen-All s)
  | inr e ↦ rw e (elim (Bool-cases (c == 9)) [
    | inl q ↦ rw q (space_is_plain, plain_screen-All s)
    | inr q ↦ rw q (elim (Bool-cases (is_control c || is_format c)) [
      | inl u ↦ rw u (plain_screen-All s)
      | inr u ↦ rw u (ground (arith, u), plain_screen-All s)
    ])
  ])
]

module _ (P : ℕ → Type 0) where
  trim_left-All : (s : Text) → All P s → All P (trim_left s)
  unfolding trim_left
  trim_left-All [] h = tt
  trim_left-All (c ∷ s) h = elim (Bool-cases (is_space c)) [
    | inl e ↦ rw e (trim_left-All s h.1)
    | inr e ↦ rw e h
  ]

  trim_right-All : (s : Text) → All P s → All P (trim_right s)
  unfolding trim_right
  trim_right-All [] h = tt
  trim_right-All (c ∷ s) h = after (trim_right s) (trim_right-All s h.1)
    where
      after :
          (t : Text)
          → All P t
          → All P (elim t [ [] ↦ (if is_space c then [] else c ∷ []) | d ∷ u ↦ c ∷ d ∷ u ])
      after [] k = elim (Bool-cases (is_space c)) [ inl e ↦ rw e tt | inr e ↦ rw e (h.0, tt) ]
      after (d ∷ u) k = (h.0, k)

  trim_space-All : (s : Text) → All P s → All P (trim_space s)
  unfolding trim_space
  trim_space-All s h = trim_right-All (trim_left s) (trim_left-All s h)

  drop_bytes-All : (cut : ℕ) (s : Text) → All P s → All P (drop_bytes cut s)
  unfolding drop_bytes
  drop_bytes-All cut [] h = tt
  drop_bytes-All cut (c ∷ s) h = elim (Bool-cases (cut == 0)) [
    | inl e ↦ rw e h
    | inr e ↦ rw e (drop_bytes-All (cut - rune_len c) s h.1)
  ]

-- The screen that is kept holds no control character but the line break, so no escape sequence and
-- no tab, and no invisible format character.
pub screen_tail-All : (screen : Text) → All (λ c. is_plain c ≡ true) (screen_tail screen)
unfolding screen_tail
screen_tail-All screen =
    let plain = plain_screen (strip_escapes screen) in
    let s = trim_space plain in
    let kept =
      trim_space-All (λ c. is_plain c ≡ true) plain (plain_screen-All (strip_escapes screen)) in
    elim (Bool-cases (ltb screen_max (byte_len s))) [
      | inl e ↦ rw e (
          trim_space-All (λ c. is_plain c ≡ true) (drop_bytes (byte_len s - screen_max) s)
            (drop_bytes-All (λ c. is_plain c ≡ true) (byte_len s - screen_max) s kept))
      | inr e ↦ rw e kept
    ]
