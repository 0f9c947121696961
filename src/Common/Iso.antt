-- ===== src/Common/Iso.antt =====
-- `new Date(ms).toISOString()` from the epoch on: days are turned into a civil date by counting eras
-- of 400 years from the first of March of the year 0.
use Prim.Native.Nat.{ℕ, ◌+◌, ◌-◌, ◌*◌, ◌/◌, ◌%◌}
use mathlib.Core.List.{[], ◌∷◌, ◌++◌}
use mathlib.Core.Path.{◌≡◌, refl}
use opa_security_awareness_a.Common.Tests.{ltb, leb, if◌then◌else◌}
use opa_security_awareness_a.Common.Text.{Text, codes}

abbrev digit : ℕ → ℕ
digit n = n % 10 + 48

abbrev two : ℕ → Text
two n = digit (n / 10) ∷ digit n ∷ []

abbrev three : ℕ → Text
three n = digit (n / 100) ∷ two n

abbrev four : ℕ → Text
four n = digit (n / 1000) ∷ three n

unfoldable civil : ℕ → Text
civil days =
    let z = days + 719468 in
    let doe = z % 146097 in
    let yoe = (doe - doe / 1460 + doe / 36524 - doe / 146096) / 365 in
    let doy = doe - (365 * yoe + yoe / 4 - yoe / 100) in
    let mp = (5 * doy + 2) / 153 in
    let month = if ltb mp 10 then mp + 3 else mp - 9 in
    let year = yoe + z / 146097 * 400 + (if leb month 2 then 1 else 0) in
    four year ++ codes "-" ++ two month ++ codes "-" ++ two (doy - (153 * mp + 2) / 5 + 1)

unfoldable pub iso : ℕ → Text
unfolding civil
iso ms =
    let s = ms / 1000 in
    civil (ms / 86400000)
    ++ codes "T"
    ++ two (s / 3600 % 24)
    ++ codes ":"
    ++ two (s / 60 % 60)
    ++ codes ":"
    ++ two (s % 60)
    ++ codes "."
    ++ three (ms % 1000)
    ++ codes "Z"

epoch : iso 0 ≡ codes "1970-01-01T00:00:00.000Z"
unfolding iso civil
epoch = refl

leap_day : iso 1709210096789 ≡ codes "2024-02-29T12:34:56.789Z"
unfolding iso civil
leap_day = refl
