-- ===== src/HttpDate/Reader.antt =====
-- A reader of the date of RFC 9110, section 5.6.7, written from the grammar there and independent of
-- the code: each field stands at its place.
use anyhttp.Prelude.{
  ℕ, ◌+◌, ◌-◌, ◌*◌, Bool, true, false, ◌&&◌, List, [], ◌∷◌, Bytes, take, drop, length, ◌==◌,
  if◌then◌else◌,
}
use anyhttp.HttpDate.Calendar.{is_leap, days_before, month_lengths, sum_before}

abbrev pub day_names : List Bytes
day_names =
    (b'S' ∷ b'u' ∷ b'n' ∷ [])
    ∷ (b'M' ∷ b'o' ∷ b'n' ∷ [])
    ∷ (b'T' ∷ b'u' ∷ b'e' ∷ [])
    ∷ (b'W' ∷ b'e' ∷ b'd' ∷ [])
    ∷ (b'T' ∷ b'h' ∷ b'u' ∷ [])
    ∷ (b'F' ∷ b'r' ∷ b'i' ∷ [])
    ∷ (b'S' ∷ b'a' ∷ b't' ∷ [])
    ∷ []

abbrev pub month_names : List Bytes
month_names =
    (b'J' ∷ b'a' ∷ b'n' ∷ [])
    ∷ (b'F' ∷ b'e' ∷ b'b' ∷ [])
    ∷ (b'M' ∷ b'a' ∷ b'r' ∷ [])
    ∷ (b'A' ∷ b'p' ∷ b'r' ∷ [])
    ∷ (b'M' ∷ b'a' ∷ b'y' ∷ [])
    ∷ (b'J' ∷ b'u' ∷ b'n' ∷ [])
    ∷ (b'J' ∷ b'u' ∷ b'l' ∷ [])
    ∷ (b'A' ∷ b'u' ∷ b'g' ∷ [])
    ∷ (b'S' ∷ b'e' ∷ b'p' ∷ [])
    ∷ (b'O' ∷ b'c' ∷ b't' ∷ [])
    ∷ (b'N' ∷ b'o' ∷ b'v' ∷ [])
    ∷ (b'D' ∷ b'e' ∷ b'c' ∷ [])
    ∷ []

-- Whether a text is `w`.
abbrev pub is_text : Bytes → Bytes → Bool
is_text [] [] = true
is_text [] (b ∷ w) = false
is_text (a ∷ s) [] = false
is_text (a ∷ s) (b ∷ w) = a == b && is_text s w

-- The place of a name in a list of names; it is the number of names for another text.
abbrev pub place_in : List Bytes → Bytes → ℕ
place_in [] s = 0
place_in (n ∷ names) s = if is_text s n then 0 else 1 + place_in names s

abbrev pub number : Bytes → ℕ
number [] = 0
number (a ∷ []) = a - b'0'
number (a ∷ b ∷ s) = (a - b'0') * 10 + (b - b'0')

abbrev pub number_at : ℕ → Bytes → ℕ
number_at i t = number (take 2 (drop i t))

-- "Sun, 06 Nov 1994 08:49:37 GMT": 29 bytes, with the signs between the fields at their places.
unfoldable pub is_imf_fixdate : Bytes → Bool
is_imf_fixdate t =
    length t == 29
    && is_text (take 2 (drop 3 t)) (b',' ∷ b' ' ∷ [])
    && is_text (take 1 (drop 7 t)) (b' ' ∷ [])
    && is_text (take 1 (drop 11 t)) (b' ' ∷ [])
    && is_text (take 1 (drop 16 t)) (b' ' ∷ [])
    && is_text (take 1 (drop 19 t)) (b':' ∷ [])
    && is_text (take 1 (drop 22 t)) (b':' ∷ [])
    && is_text (drop 25 t) (b' ' ∷ b'G' ∷ b'M' ∷ b'T' ∷ [])

unfoldable pub weekday_in : Bytes → ℕ
weekday_in t = place_in day_names (take 3 t)

-- The day that a date names, from the first of January of the year 0 on.
unfoldable pub day_in : Bytes → ℕ
day_in t =
    let year = number_at 12 t * 100 + number_at 14 t in
    days_before year
    + sum_before (month_lengths (is_leap year)) (place_in month_names (take 3 (drop 8 t)))
    + (number_at 5 t - 1)

-- The time of a date, in seconds of its day.
unfoldable pub clock_in : Bytes → ℕ
clock_in t = number_at 17 t * 3600 + number_at 20 t * 60 + number_at 23 t
