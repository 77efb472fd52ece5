-- ===== src/Runtime/Date.antt =====
-- `new Date(ms).toISOString()` for times from 1970 to the year 9999.
use cantontrace.Base.{
  ℕ, ◌+◌, ◌*◌, ◌-◌, ◌/◌, ◌%◌, ◌≡◌, refl, ◌∷◌, [], ◌++◌, ltb, if◌then◌else◌, Str, text,
}

-- Two, three and four digits.
two_digits : ℕ → Str
two_digits n = (b'0' + n / 10 % 10) ∷ (b'0' + n % 10) ∷ []

three_digits : ℕ → Str
unfolding two_digits
three_digits n = (b'0' + n / 100 % 10) ∷ two_digits (n % 100)

four_digits : ℕ → Str
unfolding three_digits
four_digits n = (b'0' + n / 1000 % 10) ∷ three_digits (n % 1000)

-- The civil date of a day count, by years that begin in March; day 719468 is 1970-01-01.
civil_date : ℕ → Str
unfolding four_digits
civil_date days =
    let z = days + 719468 in
    let era = z / 146097 in
    let doe = z % 146097 in
    let yoe = (doe - doe / 1460 + doe / 36524 - doe / 146096) / 365 in
    let doy = doe - (365 * yoe + yoe / 4 - yoe / 100) in
    let mp = (5 * doy + 2) / 153 in
    let day = doy - (153 * mp + 2) / 5 + 1 in
    let month = if ltb mp 10 then mp + 3 else mp - 9 in
    let year = yoe + era * 400 + (if ltb month 3 then 1 else 0) in
    four_digits year ++ b'-' ∷ two_digits month ++ b'-' ∷ two_digits day

unfoldable pub iso_string : ℕ → Str
unfolding civil_date
iso_string ms =
    let s = ms / 1000 in
    civil_date (s / 86400)
    ++ b'T' ∷ two_digits (s % 86400 / 3600)
    ++ b':' ∷ two_digits (s % 3600 / 60)
    ++ b':' ∷ two_digits (s % 60)
    ++ b'.' ∷ three_digits (ms % 1000)
    ++ b'Z' ∷ []

iso_string_test : iso_string 1709251199123 ≡ text "2024-02-29T23:59:59.123Z"
unfolding iso_string
iso_string_test = refl

iso_string_epoch : iso_string 0 ≡ text "1970-01-01T00:00:00.000Z"
unfolding iso_string
iso_string_epoch = refl
