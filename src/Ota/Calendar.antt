-- ===== src/Ota/Calendar.antt =====
-- src/ota/OtaManifestV2.cpp: UTC timestamps as seconds since 1970. Years are from 2020 to 2200, so
-- nothing here is negative or leaves its word.
pub mod Days
use power_monitor_sensor.Common.{
  ℕ, ◌+◌, ◌-◌, ◌*◌, ◌/◌, ◌%◌, ◌≡◌, Bool, true, false, not, ◌&&◌, ◌||◌, Option, none, some, List, [],
  ◌∷◌, leb, ltb, ◌==◌, length, all, get_or, if◌then◌else◌,
}
use power_monitor_sensor.Common.Texts.{Text}
use power_monitor_sensor.Security.Canonical.{is_between}

unfoldable pub leap_year : ℕ → Bool
leap_year year = year % 4 == 0 && (not (year % 100 == 0) || year % 400 == 0)

unfoldable pub days_from_civil : ℕ → ℕ → ℕ → ℕ
days_from_civil civil_year month day =
    let year = if leb month 2 then civil_year - 1 else civil_year in
    let era = year / 400 in
    let year_of_era = year - era * 400 in
    let day_of_year = (153 * (if ltb 2 month then month - 3 else month + 9) + 2) / 5 + day - 1 in
    let day_of_era = year_of_era * 365 + year_of_era / 4 - year_of_era / 100 + day_of_year in
    era * 146097 + day_of_era - 719468

abbrev pub days : List ℕ
days = 31 ∷ 28 ∷ 31 ∷ 30 ∷ 31 ∷ 30 ∷ 31 ∷ 31 ∷ 30 ∷ 31 ∷ 30 ∷ 31 ∷ []

unfoldable pub days_in_month : ℕ → ℕ → ℕ
unfolding leap_year
days_in_month year month =
    get_or days (month - 1) 0 + (if month == 2 && leap_year year then 1 else 0)

abbrev pub digit_at : Text → ℕ → ℕ
digit_at value index = get_or value index 0 - b'0'

abbrev pub pair_at : Text → ℕ → ℕ
pair_at value index = digit_at value index * 10 + digit_at value (index + 1)

abbrev pub is_digit_at : Text → ℕ → Bool
is_digit_at value index = is_between b'0' b'9' (get_or value index 0)

abbrev pub digit_positions : List ℕ
digit_positions = 0 ∷ 1 ∷ 2 ∷ 3 ∷ 5 ∷ 6 ∷ 8 ∷ 9 ∷ 11 ∷ 12 ∷ 14 ∷ 15 ∷ 17 ∷ 18 ∷ []

unfoldable pub has_shape : Text → Bool
has_shape value =
    length value == 20
    && get_or value 4 0 == b'-'
    && get_or value 7 0 == b'-'
    && get_or value 10 0 == b'T'
    && get_or value 13 0 == b':'
    && get_or value 16 0 == b':'
    && get_or value 19 0 == b'Z'

unfoldable pub valid_fields : ℕ → ℕ → ℕ → ℕ → ℕ → ℕ → Bool
unfolding days_in_month
valid_fields year month day hour minute second = not (
    ltb year 2020
    || ltb 2200 year
    || month == 0
    || ltb 12 month
    || day == 0
    || ltb (days_in_month year month) day
    || ltb 23 hour
    || ltb 59 minute
    || ltb 59 second)

unfoldable pub parse_utc_timestamp : Text → Option ℕ
unfolding has_shape valid_fields days_from_civil
parse_utc_timestamp value =
    let year = pair_at value 0 * 100 + pair_at value 2 in
    let month = pair_at value 5 in
    let day = pair_at value 8 in
    let hour = pair_at value 11 in
    let minute = pair_at value 14 in
    let second = pair_at value 17 in
    if not (has_shape value) || not (all (is_digit_at value) digit_positions)
    then none
    else (if not (valid_fields year month day hour minute second)
        then none
        else some (days_from_civil year month day * 86400 + (hour * 3600 + minute * 60 + second)))
