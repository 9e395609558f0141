-- ===== src/Canonical/DateTime.antt =====
-- `canonical_dt` on the naive datetimes that the columns hold: `datetime.isoformat()`.
use apichain_backend.Base.{
  ℕ, ◌+◌, ◌-◌, ◌*◌, ◌/◌, ◌%◌, Bool, not, ◌&&◌, ◌||◌, Option, none, some, [], ◌∷◌, ltb, leb, ◌==◌,
  if◌then◌else◌,
}
use apichain_backend.Canonical.Text.{Text, padded}

pub record DateTime : Type 0 where
  pub year : ℕ
  pub month : ℕ
  pub day : ℕ
  pub hour : ℕ
  pub minute : ℕ
  pub second : ℕ
  pub microsecond : ℕ

-- `YYYY-MM-DDTHH:MM:SS`, with `.ffffff` where the microseconds are not 0.
unfoldable pub isoformat : DateTime → Text
unfolding padded
isoformat t = padded 4 t.year (
    45
    ∷ padded 2 t.month (
        45
        ∷ padded 2 t.day (
            84
            ∷ padded 2 t.hour (
                58
                ∷ padded 2 t.minute (
                    58
                    ∷ padded 2 t.second
                        (if t.microsecond == 0 then [] else 46 ∷ padded 6 t.microsecond []))))))

unfoldable pub canonical_dt : Option DateTime → Option Text
unfolding isoformat
canonical_dt none = none
canonical_dt (some t) = some (isoformat t)

-- Days before a year, and days before a month of it, in the proleptic Gregorian calendar.
abbrev pub days_before_year : ℕ → ℕ
days_before_year y = 365 * (y - 1) + (y - 1) / 4 + (y - 1) / 400 - (y - 1) / 100

abbrev pub is_leap : ℕ → Bool
is_leap y = y % 4 == 0 && (not (y % 100 == 0) || y % 400 == 0)

abbrev pub days_before_month : ℕ → ℕ → ℕ
days_before_month y m =
    (if ltb 2 m && is_leap y then 1 else 0)
    + (if leb m 1
        then 0
        else if m == 2
        then 31
        else if m == 3
        then 59
        else if m == 4
        then 90
        else if m == 5
        then 120
        else if m == 6
        then 151
        else if m == 7
        then 181
        else if m == 8
        then 212
        else if m == 9
        then 243
        else if m == 10
        then 273
        else if m == 11
        then 304
        else 334)

-- A naive datetime as microseconds, in which differences of datetimes are differences of numbers.
unfoldable pub microseconds : DateTime → ℕ
microseconds t =
    let days = days_before_year t.year + days_before_month t.year t.month + t.day in
    (((days * 24 + t.hour) * 60 + t.minute) * 60 + t.second) * 1000000 + t.microsecond
