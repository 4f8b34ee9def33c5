-- ===== src/State/Bounds.antt =====
-- How long the texts are that the store keeps: screenTail (attempt.go), cleanDeviceText (device.go)
-- and Decision.Headline (decision.go).
use hand.Base.{
  Bool-cases, Text, [], arith, byte_len, inl, inr, length, ltb, ltb→lt, one_line, rune_len, suc,
  take, trim_left, trim_right, trim_space, zero, ℕ, ◌++◌, ◌+◌, ◌-◌, ◌∷◌, ◌≡◌, ◌≤◌,
}
use hand.State.Screens.{drop_bytes, plain_screen, screen_max, screen_tail, strip_escapes}
use hand.State.Devices.{blank_controls, clean_device_text}
use hand.State.Decisions.{first_line, headline, max_headline}

trim_left-byte_len : (s : Text) → byte_len (trim_left s) ≤ byte_len s
unfolding trim_left byte_len
trim_left-byte_len [] = omega arith
trim_left-byte_len (c ∷ s) = ground (arith, trim_left-byte_len s)

trim_right-byte_len : (s : Text) → byte_len (trim_right s) ≤ byte_len s
unfolding trim_right byte_len
trim_right-byte_len [] = omega arith
trim_right-byte_len (c ∷ s) = ground (arith, trim_right-byte_len s)

trim_space-byte_len : (s : Text) → byte_len (trim_space s) ≤ byte_len s
unfolding trim_space
trim_space-byte_len s = omega (arith, trim_left-byte_len s, trim_right-byte_len (trim_left s))

trim_left-length : (s : Text) → length (trim_left s) ≤ length s
unfolding trim_left
trim_left-length [] = omega arith
trim_left-length (c ∷ s) = ground (arith, trim_left-length s)

trim_right-length : (s : Text) → length (trim_right s) ≤ length s
unfolding trim_right
trim_right-length [] = omega arith
trim_right-length (c ∷ s) = ground (arith, trim_right-length s)

trim_space-length : (s : Text) → length (trim_space s) ≤ length s
unfolding trim_space
trim_space-length s = omega (arith, trim_left-length s, trim_right-length (trim_left s))

-- Cutting `cut` bytes off, or a few more, leaves the others.
drop_bytes-byte_len : (cut : ℕ) (s : Text) → byte_len (drop_bytes cut s) ≤ byte_len s - cut
unfolding drop_bytes byte_len
drop_bytes-byte_len cut [] = omega arith
drop_bytes-byte_len cut (c ∷ s) = ground (arith, drop_bytes-byte_len (cut - rune_len c) s)

-- The tail of a screen that is kept takes 2048 bytes at most.
pub screen_tail-byte_len : (screen : Text) → byte_len (screen_tail screen) ≤ screen_max
unfolding screen_tail
screen_tail-byte_len screen =
    let s = trim_space (plain_screen (strip_escapes screen)) in
    elim (Bool-cases (ltb screen_max (byte_len s))) [
      | inl e ↦ rw e (
          omega (
            arith,
            ltb→lt screen_max (byte_len s) e,
            trim_space-byte_len (drop_bytes (byte_len s - screen_max) s),
            drop_bytes-byte_len (byte_len s - screen_max) s,
          ))
      | inr e ↦ rw e (ground arith)
    ]

length-take : (n : ℕ) (s : Text) → length (take n s) ≤ n
length-take zero s = omega arith
length-take (suc n) [] = omega arith
length-take (suc n) (c ∷ s) = omega (arith, length-take n s)

-- A device's name and login are no longer than the bound that they are cleaned to.
pub clean_device_text-length : (s : Text) (most : ℕ) → length (clean_device_text s most) ≤ most
unfolding clean_device_text
clean_device_text-length s most =
    let line = one_line (blank_controls s) in
    elim (Bool-cases (ltb most (length line))) [
      | inl e ↦ rw e (length-take most line)
      | inr e ↦ rw e (ground arith)
    ]

length-append_one : (s : Text) (c : ℕ) → length (s ++ c ∷ []) ≡ length s + 1
length-append_one [] c = omega arith
length-append_one (d ∷ s) c = ground (arith, length-append_one s c)

-- A decision's headline has 120 characters at most.
pub headline-length : (question : Text) → length (headline question) ≤ max_headline
unfolding headline
headline-length question =
    let line = first_line question in
    elim (Bool-cases (ltb max_headline (length line))) [
      | inl e ↦ rw e (
          omega (
            arith,
            length-append_one (trim_space (take (max_headline - 1) line)) 0x2026,
            trim_space-length (take (max_headline - 1) line),
            length-take (max_headline - 1) line,
          ))
      | inr e ↦ rw e (ground arith)
    ]
