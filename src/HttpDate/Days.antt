-- ===== src/HttpDate/Days.antt =====
-- The date that src/common.cpp takes from a day is the date of that day.
use anyhttp.Prelude.{
  ℕ, zero, suc, ◌+◌, ◌-◌, ◌*◌, ◌/◌, ◌<◌, ◌≤◌, ◌≡◌, refl, inl, inr, Bool, true, false, ltb,
  if◌then◌else◌, arith, Bool-cases, List, [], ◌∷◌, All,
}
use anyhttp.HttpDate.Calendar.{
  is_leap, year_length, days_before, find_year, find_month, month_lengths, sum_before, total_of,
  nth, count, find_month-lem, find_year-lem,
}
use anyhttp.HttpDate.Format.{Date, date_of}

-- The rule of the calendar in closed form.
pub days_before_lem :
    (y : ℕ) → days_before y + (y + 99) / 100 ≡ 365 * y + (y + 3) / 4 + (y + 399) / 400
unfolding is_leap
days_before_lem zero = refl
days_before_lem (suc y) = ground (arith, days_before_lem y)

-- Ten thousand years have 3,652,425 days.
days_before-late : (y : ℕ) → 10000 ≤ y → 3652425 ≤ days_before y
days_before-late y h = omega (arith, days_before_lem y)

year_length-bounds : (y : ℕ) → (365 ≤ year_length y) × (year_length y ≤ 366)
unfolding is_leap
year_length-bounds y = ground arith

-- With fuel for the days, the day is one of the year that is found.
find_year-within : (n y d : ℕ) → d < 365 * n → (find_year n y d).1 < year_length (find_year n y d).0
unfolding find_year
find_year-within zero y d h = absurd (omega arith)
find_year-within (suc n) y d h = elim (Bool-cases (ltb d (year_length y))) [
  | inl k ↦ rw k (ground arith)
  | inr k ↦
      rw k (find_year-within n (suc y) (d - year_length y) (ground (arith, year_length-bounds y)))
]

month_lengths-total : (leap : Bool) → total_of (month_lengths leap) ≡ (if leap then 366 else 365)
month_lengths-total true = refl
month_lengths-total false = refl

nth-All : (ls : List ℕ) (m : ℕ) → All (λ l. l ≤ 31) ls → nth ls m ≤ 31
nth-All [] m a = omega arith
nth-All (l ∷ ls) zero a = a.0
nth-All (l ∷ ls) (suc m) a = nth-All ls m a.1

nth-bound : (leap : Bool) (m : ℕ) → nth (month_lengths leap) m ≤ 31
nth-bound true m = nth-All (month_lengths true) m (ground arith)
nth-bound false m = nth-All (month_lengths false) m (ground arith)

-- It is the date of the day: its year has four digits, its month and day exist, and the days before
-- them make up the day.
pub record IsDateOf (n : ℕ) (d : Date) : Type 0 where
  pub total : days_before d.year + sum_before (month_lengths (is_leap d.year)) d.month + d.day ≡ n
  pub year_digits : d.year ≤ 9999
  pub month_exists : d.month < 12
  pub day_exists : d.day < nth (month_lengths (is_leap d.year)) d.month
  pub short : d.day < 31

pub date_of-IsDateOf : (n : ℕ) → n < 3652425 → IsDateOf n (date_of n)
unfolding date_of
date_of-IsDateOf n h = record {
  total = omega (arith, found.0, before);
  year_digits = digits;
  month_exists = found.1;
  day_exists = found.2;
  short =
      omega (arith, found.2, nth-bound (is_leap y) (find_month (month_lengths (is_leap y)) d).0);
}
  where
    y : ℕ
    y = (find_year (suc (n / 365)) 0 n).0

    d : ℕ
    d = (find_year (suc (n / 365)) 0 n).1

    before : days_before y + d ≡ n
    before = omega (arith, (find_year-lem (suc (n / 365)) 0 n).0)

    digits : y ≤ 9999
    digits = elim (Bool-cases (ltb y 10000)) [
      | inl k ↦ ground arith
      | inr k ↦ absurd (omega (arith, days_before-late y (ground arith), before, h))
    ]

    inside : d < total_of (month_lengths (is_leap y))
    inside =
        rw (month_lengths-total (is_leap y)) (find_year-within (suc (n / 365)) 0 n (omega arith))

    found :
        (sum_before (month_lengths (is_leap y)) (find_month (month_lengths (is_leap y)) d).0
            + (find_month (month_lengths (is_leap y)) d).1
          ≡ d)
        × ((find_month (month_lengths (is_leap y)) d).0 < count (month_lengths (is_leap y)))
        × ((find_month (month_lengths (is_leap y)) d).1
            < nth (month_lengths (is_leap y)) (find_month (month_lengths (is_leap y)) d).0)
    found = find_month-lem (month_lengths (is_leap y)) d inside
