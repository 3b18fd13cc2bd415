-- ===== src/HttpDate/Format.antt =====
-- `format_http_date` of src/common.cpp.
use anyhttp.Prelude.{
  ℕ, suc, ◌+◌, ◌-◌, ◌*◌, ◌/◌, ◌%◌, ℤ, pos, negsuc, min, [], ◌∷◌, ◌++◌, Bytes, take, drop,
}
use anyhttp.HttpDate.Calendar.{is_leap, find_year, find_month, month_lengths}

-- The seconds from the first of January of the year 0 to that of 1970, and to the last second of the
-- year 9999.
abbrev pub epoch : ℕ
epoch = 719528 * 86400

abbrev pub last : ℕ
last = 3652425 * 86400 - 1

-- `floor<seconds>(tp)`, clamped, from the nanoseconds of the system clock since 1970: the seconds
-- since the first of January of the year 0. Subtraction stops at 0, which is the lower end.
unfoldable pub clamped : ℤ → ℕ
clamped (pos n) = min (epoch + n / 1000000000) last
clamped (negsuc n) = epoch - suc (n / 1000000000)

-- `year_month_day` and `weekday` of a day, months and days from 0. No year has fewer than 365 days,
-- so that the fuel is enough.
pub record Date : Type 0 where
  pub weekday : ℕ
  pub year : ℕ
  pub month : ℕ
  pub day : ℕ

unfoldable pub date_of : ℕ → Date
date_of n =
    let (y, d) = find_year (suc (n / 365)) 0 n in
    let (m, e) = find_month (month_lengths (is_leap y)) d in
    record { weekday = (n + 6) % 7; year = y; month = m; day = e }

abbrev pub weekdays : Bytes
weekdays =
    b'S' ∷ b'u' ∷ b'n' ∷ b'M' ∷ b'o' ∷ b'n' ∷ b'T' ∷ b'u' ∷ b'e' ∷ b'W' ∷ b'e' ∷ b'd' ∷ b'T' ∷ b'h'
    ∷ b'u' ∷ b'F' ∷ b'r' ∷ b'i' ∷ b'S' ∷ b'a' ∷ b't' ∷ []

abbrev pub months : Bytes
months =
    b'J' ∷ b'a' ∷ b'n' ∷ b'F' ∷ b'e' ∷ b'b' ∷ b'M' ∷ b'a' ∷ b'r' ∷ b'A' ∷ b'p' ∷ b'r' ∷ b'M' ∷ b'a'
    ∷ b'y' ∷ b'J' ∷ b'u' ∷ b'n' ∷ b'J' ∷ b'u' ∷ b'l' ∷ b'A' ∷ b'u' ∷ b'g' ∷ b'S' ∷ b'e' ∷ b'p'
    ∷ b'O' ∷ b'c' ∷ b't' ∷ b'N' ∷ b'o' ∷ b'v' ∷ b'D' ∷ b'e' ∷ b'c' ∷ []

-- `names.substr(k * 3, 3)`
abbrev pub name_of : Bytes → ℕ → Bytes
name_of names k = take 3 (drop (k * 3) names)

unfoldable pub put2 : ℕ → Bytes
put2 value = (b'0' + value / 10) % 256 ∷ (b'0' + value % 10) % 256 ∷ []

-- The text, from the name of the day of the week, the day, the name of the month, the year and the
-- seconds of the day.
unfoldable pub put_all : Bytes → ℕ → Bytes → ℕ → ℕ → Bytes
unfolding put2
put_all weekday day month y clock =
    weekday
    ++ b',' ∷ b' ' ∷ put2 day
    ++ b' ' ∷ month
    ++ b' ' ∷ put2 (y / 100)
    ++ put2 (y % 100)
    ++ b' ' ∷ put2 (clock / 3600)
    ++ b':' ∷ put2 (clock / 60 % 60)
    ++ b':' ∷ put2 (clock % 60)
    ++ b' ' ∷ b'G' ∷ b'M' ∷ b'T' ∷ []

unfoldable pub format_http_date : ℤ → Bytes
unfolding put_all clamped date_of
format_http_date tp =
    let date = date_of (clamped tp / 86400) in
    put_all (name_of weekdays date.weekday) (date.day + 1) (name_of months date.month) date.year
      (clamped tp % 86400)
