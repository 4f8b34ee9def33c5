-- ===== src/State/Clock.antt =====
-- How internal/state/timer.go writes times and spans, after packages time and strconv. A time is
-- its nanoseconds since 1970, a duration its nanoseconds.
use hand.Base.{
  Text, [], codes, decimal, ends_with, if◌then◌else◌, leb, length, ltb, take, ℕ, ◌%◌, ◌*◌, ◌++◌,
  ◌+◌, ◌-◌, ◌/◌, ◌∷◌,
}

abbrev pub second : ℕ
second = 1000000000

abbrev pub minute : ℕ
minute = 60 * second

abbrev pub hour : ℕ
hour = 60 * minute

abbrev pub day : ℕ
day = 24 * hour

-- Duration.Truncate.
abbrev pub truncate : ℕ → ℕ → ℕ
truncate d unit = d - d % unit

-- Duration.String of a whole number of seconds.
unfoldable pub duration_string : ℕ → Text
unfolding decimal
duration_string s =
    if leb 3600 s
    then decimal (s / 3600)
      ++ b'h' ∷ (decimal (s / 60 % 60) ++ b'm' ∷ (decimal (s % 60) ++ b's' ∷ []))
    else if leb 60 s
    then decimal (s / 60) ++ b'm' ∷ (decimal (s % 60) ++ b's' ∷ [])
    else decimal s ++ b's' ∷ []

-- `if strings.HasSuffix(s, "m0s") { s = s[:len(s)-2] }`.
unfoldable pub cut_zero : Text → Text → Text
unfolding ends_with
cut_zero suffix s = if ends_with suffix s then take (length s - 2) s else s

-- Span of a whole number of seconds.
unfoldable pub span : ℕ → Text
unfolding duration_string cut_zero
span s = cut_zero (codes "h0m") (cut_zero (codes "m0s") (duration_string s))

-- Ahead.
unfoldable pub ahead : ℕ → Text
unfolding span
ahead d = if leb day d then decimal (d / day) ++ b'd' ∷ [] else span (truncate d minute / second)

-- A number below 100 with two digits, and one below 10000 with four.
abbrev two_digits : ℕ → Text
two_digits n = (n / 10 + 48) ∷ (n % 10 + 48) ∷ []

abbrev four_digits : ℕ → Text
four_digits n = two_digits (n / 100) ++ two_digits (n % 100)

-- The civil date of a day since 1970: year, month, day.
unfoldable pub civil : ℕ → ℕ × ℕ × ℕ
civil days =
    let z = days + 719468 in
    let era = z / 146097 in
    let doe = z % 146097 in
    let yoe = (doe + doe / 36524 - doe / 1460 - doe / 146096) / 365 in
    let doy = doe - (365 * yoe + yoe / 4 - yoe / 100) in
    let mp = (5 * doy + 2) / 153 in
    let month = if ltb mp 10 then mp + 3 else mp - 9 in
    (yoe + era * 400 + (if leb month 2 then 1 else 0), month, doy - (153 * mp + 2) / 5 + 1)

-- Time.UTC().Format(time.RFC3339).
unfoldable pub rfc3339 : ℕ → Text
unfolding civil
rfc3339 t =
    let s = t / second in
    let (year, month, mday) = civil (s / 86400) in
    four_digits year
    ++ b'-'
      ∷ (two_digits month
          ++ b'-'
            ∷ (two_digits mday
                ++ b'T'
                  ∷ (two_digits (s / 3600 % 24)
                      ++ b':'
                        ∷ (two_digits (s / 60 % 60) ++ b':' ∷ (two_digits (s % 60) ++ b'Z' ∷ [])))))
