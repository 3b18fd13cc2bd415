-- ===== src/AltSvc/Service.antt =====
-- `AltService` and `AltSvc` of include/anyhttp/alt_svc.hpp, and decimal numbers as
-- `std::from_chars` and `std::format` have them.
use anyhttp.Prelude.{
  ℕ, zero, suc, ◌+◌, ◌-◌, ◌*◌, ◌/◌, ◌%◌, ◌<◌, ◌≡◌, refl, Bool, true, false, not, ◌&&◌, Option, none,
  some, List, [], ◌∷◌, ◌++◌, Bytes, is_empty, all, bytes_eq, ltb, ltb→lt, lt→ltb, Bool-cases, inl,
  inr, if◌then◌else◌, u64_mod, ℤ, arith,
}
use anyhttp.AltSvc.Chars.{is_digit}

pub record AltService : Type 0 where
  pub protocol : Bytes
  pub host : Bytes
  pub port : Bytes
  -- seconds, a signed 64-bit number
  pub max_age : ℤ
  pub persist : Bool

pub record AltSvc : Type 0 where
  pub clear : Bool
  pub services : List AltService

-- `for (const auto& service : services) if (service.protocol == protocol) return &service;`
unfoldable pub find_service : Bytes → List AltService → Option AltService
unfolding bytes_eq
find_service p [] = none
find_service p (s ∷ rest) = if bytes_eq s.protocol p then some s else find_service p rest

-- The number that digits stand for, on top of those read already.
unfoldable pub decimal : ℕ → Bytes → ℕ
decimal acc [] = acc
decimal acc (c ∷ s) = decimal (acc * 10 + (c - b'0')) s

-- `from_chars(first, last, value) == {last, errc{}}` for a uint64_t in base 10: all of the text is
-- digits, there is at least one, and the number is in range.
unfoldable pub parse_u64 : Bytes → Option ℕ
unfolding is_digit decimal
parse_u64 s =
    if not (is_empty s) && all is_digit s && ltb (decimal 0 s) u64_mod
    then some (decimal 0 s)
    else none

-- The decimal digits of a number, as `std::format` writes them; the fuel is the number of digits.
print_loop : ℕ → ℕ → Bytes
print_loop zero n = []
print_loop (suc f) n =
    let front = print_loop f (n / 10) in
    if ltb n 10 then (b'0' + n) ∷ [] else front ++ (b'0' + n % 10) ∷ []

-- 20 digits hold every uint64_t.
unfoldable pub print_u64 : ℕ → Bytes
unfolding print_loop
print_u64 n = print_loop 20 n

decimal-append : (acc : ℕ) (s t : Bytes) → decimal acc (s ++ t) ≡ decimal (decimal acc s) t
unfolding decimal
decimal-append acc [] t = refl
decimal-append acc (c ∷ s) t = decimal-append (acc * 10 + (c - b'0')) s t

all-append :
    (s t : Bytes) → all is_digit s ≡ true → all is_digit t ≡ true → all is_digit (s ++ t) ≡ true
all-append [] t h k = k
all-append (c ∷ s) t h k = ground (arith, all-append s t)

-- f digits are enough for a number below 10 ^ f.
pub pow10 : ℕ → ℕ
pow10 zero = 1
pow10 (suc f) = 10 * pow10 f

decimal-print : (f n : ℕ) → n < pow10 f → decimal 0 (print_loop f n) ≡ n
unfolding pow10 decimal print_loop
decimal-print zero n h = omega arith
decimal-print (suc f) n h = ground (
  arith,
  decimal-print f (n / 10),
  decimal-append 0 (print_loop f (n / 10)) ((b'0' + n % 10) ∷ []),
)

digit_of : (d : ℕ) → d < 10 → all is_digit ((b'0' + d) ∷ []) ≡ true
unfolding is_digit
digit_of d h = ground arith

print-is_digit : (f n : ℕ) → all is_digit (print_loop f n) ≡ true
unfolding print_loop
print-is_digit zero n = refl
print-is_digit (suc f) n = elim (Bool-cases (ltb n 10)) [
  | inl e ↦ rw e (digit_of n (ltb→lt n 10 e))
  | inr e ↦ rw e (
      all-append (print_loop f (n / 10)) _ (print-is_digit f (n / 10))
        (digit_of (n % 10) (omega arith)))
]

append-ne : (s : Bytes) (c : ℕ) → is_empty (s ++ c ∷ []) ≡ false
append-ne [] c = refl
append-ne (x ∷ s) c = refl

print-ne : (f n : ℕ) → is_empty (print_loop (suc f) n) ≡ false
unfolding print_loop
print-ne f n = ground (arith, append-ne (print_loop f (n / 10)) (b'0' + n % 10))

pow10_20 : u64_mod < pow10 20
unfolding pow10
pow10_20 = omega arith

-- Digits that are printed are a number's, and its own.
pub print_u64-digits :
    (n : ℕ) → (is_empty (print_u64 n) ≡ false) × (all is_digit (print_u64 n) ≡ true)
print_u64-digits n = unfold print_u64 in (print-ne 19 n, print-is_digit 20 n)

pub decimal-print_u64 : (n : ℕ) → n < u64_mod → decimal 0 (print_u64 n) ≡ n
decimal-print_u64 n h = unfold print_u64 in decimal-print 20 n (omega (arith, pow10_20))

pub parse_u64-print_u64 : (n : ℕ) → n < u64_mod → parse_u64 (print_u64 n) ≡ some n
unfolding parse_u64
parse_u64-print_u64 n h =
    rw ((print_u64-digits n).0, (print_u64-digits n).1, decimal-print_u64 n h, lt→ltb n u64_mod h)
      refl
