-- ===== src/Schema/Calendar.antt =====
-- Dates and times as the `datetime` module has them: a date of the Gregorian calendar with its
-- ordinal, its ISO text and the day after it, and a time of day.
use map_service_agent.Prelude.{
  ℕ, zero, suc, ◌+◌, ◌-◌, ◌*◌, ◌/◌, ◌%◌, Bool, not, ◌&&◌, ◌||◌, [], ◌∷◌, ◌++◌, ltb, ◌==◌,
  if◌then◌else◌,
}
use map_service_agent.Value.{Str}

pub record Date : Type 0 where
  pub year : ℕ
  pub month : ℕ
  pub day : ℕ

unfoldable pub is_leap : ℕ → Bool
is_leap y = y % 4 == 0 && (not (y % 100 == 0) || y % 400 == 0)

unfoldable pub days_in_month : ℕ → ℕ → ℕ
unfolding is_leap
days_in_month y m =
    if m == 2
    then if is_leap y then 29 else 28
    else if m == 4 || m == 6 || m == 9 || m == 11
    then 30
    else 31

unfoldable pub days_before_month : ℕ → ℕ → ℕ
unfolding days_in_month
days_before_month y zero = 0
days_before_month y (suc zero) = 0
days_before_month y (suc (suc m)) = days_before_month y (suc m) + days_in_month y (suc m)

-- `d.toordinal()`
unfoldable pub ordinal : Date → ℕ
unfolding days_before_month
ordinal d =
    let y = d.year - 1 in
    y * 365 + y / 4 + y / 400 - y / 100 + days_before_month d.year d.month + d.day

-- `d + timedelta(days=1)`
unfoldable pub next_day : Date → Date
unfolding days_in_month
next_day d =
    if ltb d.day (days_in_month d.year d.month)
    then record d { day = d.day + 1 }
    else if d.month == 12
    then record { year = d.year + 1; month = 1; day = 1 }
    else record { year = d.year; month = d.month + 1; day = 1 }

-- `d + timedelta(days=n)`
unfoldable pub plus_days : Date → ℕ → Date
unfolding next_day
plus_days d zero = d
plus_days d (suc n) = plus_days (next_day d) n

abbrev digit : ℕ → ℕ
digit n = b'0' + n % 10

-- `f"{n:02d}"` of a number below 100
unfoldable pub two_digits : ℕ → Str
two_digits n = digit (n / 10) ∷ digit n ∷ []

-- `d.isoformat()`
unfoldable pub isoformat : Date → Str
unfolding two_digits
isoformat d =
    two_digits (d.year / 100)
    ++ two_digits d.year
    ++ (b'-' ∷ two_digits d.month)
    ++ (b'-' ∷ two_digits d.day)

-- A time of day, to the microsecond.
pub record Time : Type 0 where
  pub hour : ℕ
  pub minute : ℕ
  pub micros : ℕ

-- `t.hour * 60 + t.minute`
abbrev pub minutes_of : Time → ℕ
minutes_of t = t.hour * 60 + t.minute

-- `t < u` compares hours, minutes, seconds and microseconds.
abbrev pub time_lt : Time → Time → Bool
time_lt t u = ltb (minutes_of t * 60_000_000 + t.micros) (minutes_of u * 60_000_000 + u.micros)
