-- ===== src/Tests/HttpDate.antt =====
-- src/common.cpp at the example of RFC 9110.
use anyhttp.Prelude.{◌-◌, ◌*◌, ◌≡◌, refl, [], ◌∷◌, Bytes, pos, negsuc}
use anyhttp.HttpDate.Format.{format_http_date}
use anyhttp.HttpDate.RoundTrip.{Tells, seconds_in, format_http_date-Tells}
use anyhttp.HttpDate.Reader.{day_in, clock_in}
use anyhttp.HttpDate.Calendar.{find_year, find_month, is_leap}

-- "Sun, 06 Nov 1994 08:49:37 GMT"
abbrev example_date : Bytes
example_date =
    b'S' ∷ b'u' ∷ b'n' ∷ b',' ∷ b' ' ∷ b'0' ∷ b'6' ∷ b' ' ∷ b'N' ∷ b'o' ∷ b'v' ∷ b' ' ∷ b'1' ∷ b'9'
    ∷ b'9' ∷ b'4' ∷ b' ' ∷ b'0' ∷ b'8' ∷ b':' ∷ b'4' ∷ b'9' ∷ b':' ∷ b'3' ∷ b'7' ∷ b' ' ∷ b'G'
    ∷ b'M' ∷ b'T' ∷ []

-- 784111777 seconds since 1970, and a bit.
example_date-formatted : format_http_date (pos 784111777000000123) ≡ example_date
unfolding format_http_date find_year find_month is_leap
example_date-formatted = refl

-- A time point before 1970 is rounded down as well.
before_1970 : seconds_in (format_http_date (negsuc 0)) ≡ 719528 * 86400 - 1
unfolding format_http_date day_in clock_in find_year find_month is_leap
before_1970 = refl

format_http_date-Tells_example :
    Tells (pos 784111777000000123) (format_http_date (pos 784111777000000123))
format_http_date-Tells_example = format_http_date-Tells (pos 784111777000000123)
