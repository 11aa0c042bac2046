-- ===== src/Ota/Calendar/Days.antt =====
-- src/ota/OtaManifestV2.cpp: the number of a day counts the days since 1970-01-01.
use power_monitor_sensor.Common.{
  ℕ, ◌+◌, ◌≤◌, ◌<◌, ◌≡◌, refl, not, leb, ltb, get_or, all_below, Bool-cases, ==→eq, inl, inr,
  all_below_sound, ◌-◌, ◌*◌, ◌/◌, Bool, true, false, ◌&&◌, ◌||◌, ◌==◌, if◌then◌else◌, arith,
}
use power_monitor_sensor.Ota.Calendar.{days, leap_year, days_from_civil, days_in_month}

-- The day behind a day of the calendar.
unfoldable pub next_day : ℕ × ℕ × ℕ → ℕ × ℕ × ℕ
unfolding days_in_month
next_day (year, month, day) =
    if not (day == days_in_month year month)
    then (year, month, day + 1)
    else (if month == 12 then (year + 1, 1, 1) else (year, month + 1, 1))

abbrev pub number : ℕ × ℕ × ℕ → ℕ
unfolding days_from_civil
number (year, month, day) = days_from_civil year month day

within_month :
    (year month day : ℕ)
    → 1970 ≤ year
    → 1 ≤ month
    → 1 ≤ day
    → days_from_civil year month (day + 1) ≡ days_from_civil year month day + 1
unfolding days_from_civil
within_month year month day a b c = ground arith

by_four : (y : ℕ) → (y - y / 400 * 400) / 4 + y / 400 * 100 ≡ y / 4
by_four y = omega arith

by_hundred : (y : ℕ) → (y - y / 400 * 400) / 100 + y / 400 * 4 ≡ y / 100
by_hundred y = omega arith

put_together :
    (y e p q fours hundreds day : ℕ)
    → p + e * 100 ≡ fours
    → q + e * 4 ≡ hundreds
    → e * 400 ≤ y
    → q ≤ p
    → e * 146097 + ((y - e * 400) * 365 + p - q + day) ≡ y * 365 + fours + e + day - hundreds
put_together y e p q fours hundreds day a b c d = omega arith

-- The days up to a day of a year that starts in March, by the closed formula.
abbrev elapsed : ℕ → ℕ → ℕ
elapsed y day = y * 365 + y / 4 + y / 400 + day - y / 100

elapsed_lem :
    (y day : ℕ)
    → y / 400 * 146097
        + ((y - y / 400 * 400) * 365 + (y - y / 400 * 400) / 4 - (y - y / 400 * 400) / 100 + day)
      ≡ elapsed y day
elapsed_lem y day =
    let e = y / 400 in
    let rest = y - e * 400 in
    put_together y e (rest / 4) (rest / 100) (y / 4) (y / 100) day (by_four y) (by_hundred y)
      (omega arith) (omega arith)

over_year :
    (year : ℕ) → 1970 ≤ year → days_from_civil (year + 1) 1 1 ≡ days_from_civil year 12 31 + 1
unfolding days_from_civil
over_year year a =
    let one : year + 1 - 1 ≡ year = omega arith in
    rw (one, elapsed_lem year 306, elapsed_lem year 305) (omega arith)

leap_step :
    (year : ℕ)
    → 1970 ≤ year
    → elapsed year 0 - 719468 ≡ elapsed (year - 1) (337 + days_in_month year 2 - 1) - 719468 + 1
unfolding days_in_month leap_year
leap_step year a = ground arith

over_february :
    (year : ℕ)
    → 1970 ≤ year
    → days_from_civil year 3 1 ≡ days_from_civil year 2 (days_in_month year 2) + 1
unfolding days_from_civil days_in_month leap_year
over_february year a =
    rw (elapsed_lem year 0, elapsed_lem (year - 1) (337 + days_in_month year 2 - 1))
      (leap_step year a)

unfoldable length_test : ℕ → Bool
length_test month =
    ltb month 3
    || (153 * (month + 1 - 3) + 2) / 5 == (153 * (month - 3) + 2) / 5 + get_or days (month - 1) 0
      && leb 1 (get_or days (month - 1) 0)

-- The formula for the day of a year knows the lengths of the months from March to November.
month_lengths :
    (month : ℕ)
    → 3 ≤ month
    → month < 12
    → ((153 * (month + 1 - 3) + 2) / 5 ≡ (153 * (month - 3) + 2) / 5 + get_or days (month - 1) 0)
      × (1 ≤ get_or days (month - 1) 0)
unfolding length_test all_below
month_lengths month a b = let known = all_below_sound 12 length_test refl month b in ground arith

over_month :
    (year month : ℕ)
    → 1970 ≤ year
    → 3 ≤ month
    → month < 12
    → days_from_civil year (month + 1) 1 ≡ days_from_civil year month (days_in_month year month) + 1
unfolding days_from_civil days_in_month
over_month year month a b c =
    let (known, filled) = month_lengths month b c in
    let late : leb month 2 ≡ false = ground arith in
    let later : leb (month + 1) 2 ≡ false = ground arith in
    let march : ltb 2 month ≡ true = ground arith in
    let april : ltb 2 (month + 1) ≡ true = ground arith in
    let other : (month == 2) ≡ false = ground arith in
    let before = (153 * (month - 3) + 2) / 5 in
    let length = get_or days (month - 1) 0 in
    rw
      (
        late,
        later,
        march,
        april,
        other,
        known,
        elapsed_lem year (before + length + 1 - 1),
        elapsed_lem year (before + (length + 0) - 1),
      )
      (omega arith)

over_january :
    (year : ℕ)
    → 1970 ≤ year
    → days_from_civil year 2 1 ≡ days_from_civil year 1 (days_in_month year 1) + 1
unfolding days_from_civil days_in_month
over_january year a = rw (elapsed_lem (year - 1) 337, elapsed_lem (year - 1) 336) (omega arith)

over_any_month :
    (year month : ℕ)
    → 1970 ≤ year
    → 1 ≤ month
    → month < 12
    → days_from_civil year (month + 1) 1 ≡ days_from_civil year month (days_in_month year month) + 1
over_any_month year month a b c = elim (Bool-cases (month == 1)) [
  | inl first ↦ rw (==→eq month 1 first) (over_january year a)
  | inr other ↦ elim (Bool-cases (month == 2)) [
    | inl second ↦ rw (==→eq month 2 second) (over_february year a)
    | inr later ↦ over_month year month a (ground arith) c
  ]
]

over_december :
    (year : ℕ)
    → 1970 ≤ year
    → days_from_civil (year + 1) 1 1 ≡ days_from_civil year 12 (days_in_month year 12) + 1
unfolding days_in_month
over_december year a = over_year year a

-- The number of a day counts the days since 1970-01-01: that day has the number 0, and from 1970 on
-- the day behind a day has the next number, over the ends of months and years and in leap years.
pub days_from_civil_counts :
    (year month day : ℕ)
    → 1970 ≤ year
    → 1 ≤ month
    → month ≤ 12
    → 1 ≤ day
    → (days_from_civil 1970 1 1 ≡ 0)
      × (number (next_day (year, month, day)) ≡ days_from_civil year month day + 1)
unfolding days_from_civil next_day
days_from_civil_counts year month day a b c d = (
  refl,
  elim (Bool-cases (day == days_in_month year month)) [
    | inr inside ↦ rw inside (within_month year month day a b d)
    | inl last ↦ elim (Bool-cases (month == 12)) [
      | inr early ↦
          rw (last, early, ==→eq day (days_in_month year month) last)
            (over_any_month year month a b (ground arith))
      | inl december ↦
          let length = ==→eq day (days_in_month year month) last in
          let twelfth = ==→eq month 12 december in
          rw (last, december, length, twelfth) (over_december year a)
    ]
  ],
)
