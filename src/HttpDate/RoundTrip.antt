-- ===== src/HttpDate/RoundTrip.antt =====
-- The date that src/common.cpp writes is read back.
use anyhttp.Prelude.{
  ℕ, zero, suc, ◌+◌, ◌*◌, ◌/◌, ◌%◌, ◌<◌, ◌≤◌, ◌≡◌, refl, subst, inl, inr, ◌⊎◌, ℤ, pos, negsuc, true,
  List, [], ◌∷◌, Bytes, arith, ltb, ◌∙◌, Bool-cases,
}
use anyhttp.HttpDate.Calendar.{is_leap, days_before, month_lengths, sum_before}
use anyhttp.HttpDate.Format.{
  date_of, clamped, weekdays, months, name_of, put2, put_all, format_http_date, last, epoch,
}
use anyhttp.HttpDate.Days.{date_of-IsDateOf, days_before_lem}
use anyhttp.HttpDate.Reader.{
  day_names, month_names, place_in, number, is_imf_fixdate, weekday_in, day_in, clock_in,
}

number-put2 : (v : ℕ) → v < 100 → number (put2 v) ≡ v
unfolding put2
number-put2 v h = omega arith

-- A name of three letters that is number `k` of `names`.
record IsName (names : List Bytes) (s : Bytes) (k : ℕ) : Type 0 where
  a : ℕ
  b : ℕ
  c : ℕ
  spelled : s ≡ a ∷ b ∷ c ∷ []
  placed : place_in names (a ∷ b ∷ c ∷ []) ≡ k

named :
    {names : List Bytes} {a b c k : ℕ}
    → place_in names (a ∷ b ∷ c ∷ []) ≡ k
    → IsName names (a ∷ b ∷ c ∷ []) k
named e = record { a = _; b = _; c = _; spelled = refl; placed = e }

-- What holds of each number below `n`.
abbrev Each : (ℕ → Type 0) → ℕ → Type 0
Each P zero = Unit
Each P (suc n) = P n × Each P n

each : (P : ℕ → Type 0) (n : ℕ) → Each P n → (k : ℕ) → k < n → P k
each P zero e k h = absurd (omega arith)
each P (suc n) e k h = elim (split) [ inl x ↦ rw x e.0 | inr x ↦ each P n e.1 k x ]
  where
    split : (k ≡ n) ⊎ (k < n)
    split = ground arith

day_name : (w : ℕ) → w < 7 → IsName day_names (name_of weekdays w) w
day_name =
    each (λ w. IsName day_names (name_of weekdays w) w) 7
      (
        named refl,
        (named refl, (named refl, (named refl, (named refl, (named refl, (named refl, tt)))))),
      )

month_name : (m : ℕ) → m < 12 → IsName month_names (name_of months m) m
month_name =
    each (λ m. IsName month_names (name_of months m) m) 12
      (
        named refl,
        (
          named refl,
          (
            named refl,
            (
              named refl,
              (
                named refl,
                (
                  named refl,
                  (
                    named refl,
                    (named refl, (named refl, (named refl, (named refl, (named refl, tt))))),
                  ),
                ),
              ),
            ),
          ),
        ),
      )

-- What a text says: it has the form of a date, and the day of the week, the day and the time.
pub record Says (t : Bytes) (weekday day clock : ℕ) : Type 0 where
  pub form : is_imf_fixdate t ≡ true
  pub weekday_read : weekday_in t ≡ weekday
  pub day_read : day_in t ≡ day
  pub clock_read : clock_in t ≡ clock

put_all-Says :
    (weekday month : Bytes) (w d m y clock : ℕ)
    → IsName day_names weekday w
    → IsName month_names month m
    → d < 31
    → y ≤ 9999
    → clock < 86400
    → Says
        (put_all weekday (d + 1) month y clock)
        w
        (days_before y + sum_before (month_lengths (is_leap y)) m + d)
        clock
unfolding put_all put2 is_imf_fixdate weekday_in day_in clock_in
put_all-Says weekday month w d m y clock nw nm hd hy hc = record {
  form = rw (nw.spelled, nm.spelled) refl;
  weekday_read = rw nw.spelled nw.placed;
  day_read = rw (nw.spelled, nm.spelled, year, nm.placed) (omega arith);
  clock_read = rw (nw.spelled, nm.spelled) (omega arith);
}
  where
    year : number (put2 (y / 100)) * 100 + number (put2 (y % 100)) ≡ y
    year = omega arith

clamped-bound : (tp : ℤ) → clamped tp ≤ last
unfolding clamped
clamped-bound (pos n) = omega arith
clamped-bound (negsuc n) = omega arith

-- The text of a time point, by the parts of the clamped time.
format_http_date-Says :
    (tp : ℤ)
    → Says
        (format_http_date tp)
        ((clamped tp / 86400 + 6) % 7)
        (clamped tp / 86400)
        (clamped tp % 86400)
unfolding format_http_date date_of
format_http_date-Says tp =
    let n = clamped tp / 86400 in
    let date = date_of n in
    let found = date_of-IsDateOf n (omega (arith, clamped-bound tp)) in
    subst (λ day. Says (format_http_date tp) date.weekday day (clamped tp % 86400)) found.total
      (put_all-Says (name_of weekdays date.weekday) (name_of months date.month) date.weekday
        date.day date.month date.year (clamped tp % 86400)
        (day_name date.weekday (unfold date_of in omega arith))
        (month_name date.month found.month_exists) found.short found.year_digits (omega arith))

-- The seconds that a text says, since the first of January of the year 0.
abbrev pub seconds_in : Bytes → ℕ
seconds_in t = day_in t * 86400 + clock_in t

-- A second is `tp` rounded down to a whole one, `tp` being nanoseconds from the first of January of
-- 1970 on, or the first or the last second before `end` if `tp` is before or behind them; `start` and
-- `end` are the days from the first of January of the year 0 to that of 1970 and to the end.
abbrev pub IsTimeOf : ℕ → ℕ → ℤ → ℕ → Type 0
IsTimeOf start end (pos n) s =
    ((s < end * 86400)
      × (s * 1000000000 ≤ start * 86400000000000 + n)
      × (start * 86400000000000 + n < (s + 1) * 1000000000))
    ⊎ ((end * 86400000000000 ≤ start * 86400000000000 + n) × (s + 1 ≡ end * 86400))
IsTimeOf start end (negsuc n) s =
    ((s * 1000000000 + (n + 1) ≤ start * 86400000000000)
      × (start * 86400000000000 < (s + 1) * 1000000000 + (n + 1)))
    ⊎ ((start * 86400000000000 < n + 1) × (s ≡ 0))

clamped-IsTimeOf :
    (start end : ℕ) → start ≡ 719528 → end ≡ 3652425 → (tp : ℤ) → IsTimeOf start end tp (clamped tp)
unfolding clamped
clamped-IsTimeOf start end a b (pos n) =
    elim (Bool-cases (ltb (epoch + n / 1000000000) (last + 1))) [
      | inl k ↦ inl (ground arith, ground arith, ground arith)
      | inr k ↦ inr (ground arith, ground arith)
    ]
clamped-IsTimeOf start end a b (negsuc n) = elim (Bool-cases (ltb (n / 1000000000) epoch)) [
  | inl k ↦ inl (ground arith, ground arith)
  | inr k ↦ inr (ground arith, ground arith)
]

days_before-at :
    (y : ℕ) → ((y ≡ 1970) → (days_before y ≡ 719528)) × ((y ≡ 10000) → (days_before y ≡ 3652425))
days_before-at y =
    (λ e. omega (arith, days_before_lem y, e), λ e. omega (arith, days_before_lem y, e))

year_1970 : days_before 1970 ≡ 719528
year_1970 = (days_before-at 1970).0 refl

year_10000 : days_before 10000 ≡ 3652425
year_10000 = (days_before-at 10000).1 refl

weekday_from :
    (start n day : ℕ) → start ≡ 719528 → day ≡ n → (n + 6) % 7 ≡ (day + 6 * start + 4) % 7
weekday_from start n day e f = omega arith

whole : (n day clock : ℕ) → day ≡ n / 86400 → clock ≡ n % 86400 → n ≡ day * 86400 + clock
whole n day clock d c = omega arith

-- What a text says of a time: it has the form of a date, its weekday is that of its day, the first of
-- January of 1970 having been a Thursday (to add six times is to go back, modulo 7), and its seconds are those of the time.
pub record Tells (tp : ℤ) (t : Bytes) : Type 0 where
  pub form : is_imf_fixdate t ≡ true
  pub weekday_read : weekday_in t ≡ (day_in t + 6 * days_before 1970 + 4) % 7
  pub time_read : IsTimeOf (days_before 1970) (days_before 10000) tp (seconds_in t)
  pub clock_read : clock_in t < 86400

-- The date that is written for any time point, in nanoseconds since 1970, is read back as that time:
-- the text has the 29 bytes of an IMF-fixdate, the date and the time of day in it, as seconds by the
-- calendar, are the time point rounded down to a second, or the first or last second of the years 0000
-- to 9999 for one before or behind them, and its day of the week is that of its date.
pub format_http_date-Tells : (tp : ℤ) → Tells tp (format_http_date tp)
format_http_date-Tells tp =
    let r = format_http_date-Says tp in
    record {
      form = r.form;
      weekday_read =
          r.weekday_read
          ∙ weekday_from (days_before 1970) (clamped tp / 86400) (day_in (format_http_date tp))
              year_1970 r.day_read;
      time_read =
          subst (IsTimeOf (days_before 1970) (days_before 10000) tp)
            (whole (clamped tp) (day_in (format_http_date tp)) (clock_in (format_http_date tp))
              r.day_read r.clock_read)
            (clamped-IsTimeOf (days_before 1970) (days_before 10000) year_1970 year_10000 tp);
      clock_read = rw r.clock_read (omega arith);
    }
