-- ===== src/Common/Format.antt =====
-- fmt's decimal numbers and time.Duration's text, for the messages that the program composes.
use rdda.Common.{
  ℕ, zero, suc, ◌+◌, ◌/◌, ◌%◌, ◌*◌, ◌-◌, ◌≡◌, refl, [], ◌∷◌, ◌++◌, Str, codes, nat_eq, ltb,
  if◌then◌else◌,
}

-- The digits on fuel; a number has at most as many digits as its value and one more.
digits : ℕ → ℕ → Str → Str
digits zero n out = out
digits (suc f) n out =
    let rest = digits f (n / 10) ((b'0' + n % 10) ∷ out) in
    if ltb n 10 then (b'0' + n) ∷ out else rest

-- %d; twenty digits hold every uint64.
unfoldable pub decimal : ℕ → Str
unfolding digits
decimal n = digits 20 n []

-- Round(time.Second) of a duration that is not negative: half a second rounds up.
unfoldable pub round_seconds : ℕ → ℕ
round_seconds ns = (ns + 500000000) / 1000000000

-- Duration.String of a whole number of seconds.
unfoldable pub show_seconds : ℕ → Str
unfolding decimal
show_seconds s =
    let h = s / 3600 in
    let m = s / 60 % 60 in
    let tail = decimal (s % 60) ++ codes "s" in
    let minutes = decimal m ++ codes "m" ++ tail in
    if ltb 0 h then decimal h ++ codes "h" ++ minutes else if ltb 0 m then minutes else tail

pad2 : ℕ → Str
unfolding decimal
pad2 n = if ltb n 10 then b'0' ∷ decimal n else decimal n

-- The layout 2006-01-02 of a day of the Gregorian calendar, given as days since 1970-01-01.
unfoldable pub show_day : ℕ → Str
unfolding decimal pad2
show_day days =
    let z = days + 719468 in
    let era = z / 146097 in
    let doe = z % 146097 in
    let yoe = (doe - doe / 1460 + doe / 36524 - doe / 146096) / 365 in
    let doy = doe - (365 * yoe + yoe / 4 - yoe / 100) in
    let mp = (5 * doy + 2) / 153 in
    let d = doy - (153 * mp + 2) / 5 + 1 in
    let m = if ltb mp 10 then mp + 3 else mp - 9 in
    let y = yoe + era * 400 + (if ltb m 3 then 1 else 0) in
    decimal y ++ codes "-" ++ pad2 m ++ codes "-" ++ pad2 d

leap_day : show_day 19782 ≡ codes "2024-02-29"
unfolding show_day
leap_day = refl

long_age : show_seconds (round_seconds 4503500000000) ≡ codes "1h15m4s"
unfolding show_seconds round_seconds
long_age = refl
