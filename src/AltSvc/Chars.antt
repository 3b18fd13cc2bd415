-- ===== src/AltSvc/Chars.antt =====
-- Character classes of src/alt_svc.cpp. A `char` is its byte, 0 to 255.
use anyhttp.Prelude.{
  ℕ, ◌+◌, ◌-◌, ◌<◌, ◌≡◌, Bool, false, ◌&&◌, ◌||◌, Option, none, some, [], ◌∷◌, Bytes, leb, ltb,
  ◌==◌, if◌then◌else◌, arith,
}

-- `std::string_view::find` on the special characters.
any_of : Bytes → ℕ → Bool
any_of [] c = false
any_of (x ∷ xs) c = c == x || any_of xs c

-- !#$%&'*+-.^_`|~
abbrev special : Bytes
special =
    0x21 ∷ 0x23 ∷ 0x24 ∷ 0x25 ∷ 0x26 ∷ 0x27 ∷ 0x2a ∷ 0x2b ∷ 0x2d ∷ 0x2e ∷ 0x5e ∷ 0x5f ∷ 0x60 ∷ 0x7c
    ∷ 0x7e ∷ []

unfoldable pub is_digit : ℕ → Bool
is_digit c = leb b'0' c && leb c b'9'

unfoldable pub is_tchar : ℕ → Bool
unfolding any_of is_digit
is_tchar c =
    (leb b'a' c && leb c b'z') || (leb b'A' c && leb c b'Z') || is_digit c || any_of special c

unfoldable pub is_ows : ℕ → Bool
is_ows c = c == 0x20 || c == 0x09

-- One digit as `std::from_chars` reads it in base 16.
unfoldable pub hex_digit : ℕ → Option ℕ
hex_digit c =
    if leb b'0' c && leb c b'9'
    then some (c - b'0')
    else if leb b'a' c && leb c b'f'
    then some (c - b'a' + 10)
    else if leb b'A' c && leb c b'F'
    then some (c - b'A' + 10)
    else none

-- The digit that RFC 7838 writes in an escape.
unfoldable pub to_hex : ℕ → ℕ
to_hex n = if ltb n 10 then b'0' + n else b'A' + (n - 10)

pub hex_digit-to_hex : (n : ℕ) → n < 16 → hex_digit (to_hex n) ≡ some n
unfolding hex_digit to_hex
hex_digit-to_hex n h = ground arith
