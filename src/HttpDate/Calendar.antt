-- ===== src/HttpDate/Calendar.antt =====
-- What src/common.cpp uses of the calendar of std::chrono: the civil date of a day. Days are counted
-- from the first of January of the year 0.
use anyhttp.Prelude.{
  ℕ, zero, suc, ◌+◌, ◌-◌, ◌%◌, ◌<◌, ◌≤◌, ◌≡◌, refl, inl, inr, Bool, not, ◌&&◌, ◌||◌, List, [], ◌∷◌,
  ltb, ◌==◌, if◌then◌else◌, arith, Bool-cases,
}

unfoldable pub is_leap : ℕ → Bool
is_leap y = (y % 4 == 0) && (not (y % 100 == 0) || (y % 400 == 0))

abbrev pub year_length : ℕ → ℕ
year_length y = if is_leap y then 366 else 365

-- The days before a year.
abbrev pub days_before : ℕ → ℕ
days_before zero = 0
days_before (suc y) = days_before y + year_length y

-- The year of a day, and the day in it, from the year `y` and the days since its first one; the fuel
-- is the number of years to go.
unfoldable pub find_year : ℕ → ℕ → ℕ → ℕ × ℕ
find_year zero y d = (y, d)
find_year (suc n) y d =
    let rest = find_year n (suc y) (d - year_length y) in
    if ltb d (year_length y) then (y, d) else rest

abbrev pub month_lengths : Bool → List ℕ
month_lengths leap =
    31 ∷ (if leap then 29 else 28) ∷ 31 ∷ 30 ∷ 31 ∷ 30 ∷ 31 ∷ 31 ∷ 30 ∷ 31 ∷ 30 ∷ 31 ∷ []

-- The month of a day of a year and the day in it, both from 0.
unfoldable pub find_month : List ℕ → ℕ → ℕ × ℕ
find_month [] d = (0, d)
find_month (l ∷ ls) d = let (m, e) = find_month ls (d - l) in if ltb d l then (0, d) else (suc m, e)

abbrev pub sum_before : List ℕ → ℕ → ℕ
sum_before [] m = 0
sum_before (l ∷ ls) zero = 0
sum_before (l ∷ ls) (suc m) = l + sum_before ls m

abbrev pub total_of : List ℕ → ℕ
total_of [] = 0
total_of (l ∷ ls) = l + total_of ls

abbrev pub nth : List ℕ → ℕ → ℕ
nth [] m = 0
nth (l ∷ ls) zero = l
nth (l ∷ ls) (suc m) = nth ls m

abbrev pub count : List ℕ → ℕ
count [] = 0
count (l ∷ ls) = suc (count ls)

-- The month is one of the list, the day one of the month, and together they are the day of the year.
pub find_month-lem :
    (ls : List ℕ) (d : ℕ)
    → d < total_of ls
    → (sum_before ls (find_month ls d).0 + (find_month ls d).1 ≡ d)
      × ((find_month ls d).0 < count ls)
      × ((find_month ls d).1 < nth ls (find_month ls d).0)
unfolding find_month
find_month-lem [] d h = absurd (omega arith)
find_month-lem (l ∷ ls) d h = elim (Bool-cases (ltb d l)) [
  | inl k ↦ rw k (omega arith, omega arith, ground arith)
  | inr k ↦
      let (a, b, c) = find_month-lem ls (d - l) (ground arith) in
      rw k (ground (arith, a), omega (arith, b), c)
]

-- The year's days before it and the day in it are the day, and it is a day of the year if the fuel
-- reaches it.
pub find_year-lem :
    (n y d : ℕ)
    → (days_before (find_year n y d).0 + (find_year n y d).1 ≡ days_before y + d)
      × (y ≤ (find_year n y d).0)
unfolding find_year
find_year-lem zero y d = (refl, omega arith)
find_year-lem (suc n) y d = elim (Bool-cases (ltb d (year_length y))) [
  | inl k ↦ rw k (refl, omega arith)
  | inr k ↦
      let (a, b) = find_year-lem n (suc y) (d - year_length y) in
      rw k (ground (arith, a), omega (arith, b))
]
