-- ===== src/Dates.antt =====
-- `Date` as governance/decision-rules.ts and governance/timelock.ts use it: an instant is a number of
-- milliseconds since 1970, and the text form is a parameter with its documented order.
use openfederation_pds.Base.{
  ℕ, suc, ◌+◌, ◌-◌, ◌*◌, ◌/◌, ◌≤◌, ◌<◌, ◌≡◌, true, false, Option, none, some, String, leb, ltb,
  text_lt, text_lt_asymm, text_lt_irrefl, Bool-cases, lt-of-ltb, tests, inl, inr, ap, ◌↔◌, ◌≢◌,
  if◌then◌else◌,
}
use openfederation_pds.Json.{Num, nan, inf, frac}

-- The last instant of the year 9999; later years are written with a sign and six digits.
abbrev pub last_plain : ℕ
last_plain = 253402300799999

-- The last instant that a `Date` represents.
abbrev pub max_time : ℕ
max_time = 8640000000000000

-- `new Date(s).getTime()`, with `none` for NaN, and `new Date(t).toISOString()` for a valid `t`.
pub record Dates : Type 0 where
  pub get_time : String → Option ℕ
  pub iso : ℕ → String
  pub get_time-iso : (t : ℕ) → t ≤ max_time → get_time (iso t) ≡ some t
  pub iso_full : (t : ℕ) → iso t ≢ ""
  -- Among years of four digits the order of the texts is that of the instants.
  pub iso_order : (s t : ℕ) → s < t → t ≤ last_plain → text_lt (iso s) (iso t) ≡ true
  -- A year past 9999 begins with "+", which stands before every digit.
  pub iso_far :
      (s t : ℕ) → s ≤ last_plain → last_plain < t → t ≤ max_time → text_lt (iso t) (iso s) ≡ true

-- `new Date(t + x * unit).toISOString()`: `none` where the sum is no valid date and the call throws.
-- Instants before 1970 are left out.
unfoldable pub shifted : ℕ → Num → ℕ → Option ℕ
shifted t nan unit = none
shifted t (inf s) unit = none
shifted t (frac false n d) unit =
    let r = t + n * unit / suc d in if leb r max_time then some r else none
shifted t (frac true n d) unit =
    let less = (n * unit + d) / suc d in if leb less t then some (t - less) else none

pub iso_lt_iff :
    (dates : Dates) (s t : ℕ)
    → s ≤ last_plain
    → t ≤ last_plain
    → (text_lt (dates.iso s) (dates.iso t) ≡ true) ↔ (s < t)
iso_lt_iff dates s t hs ht = (λ h. before h, λ l. dates.iso_order s t l ht)
  where
    before : text_lt (dates.iso s) (dates.iso t) ≡ true → s < t
    before h = elim (Bool-cases (ltb s t)) [
      | inl e ↦ lt-of-ltb s t e
      | inr e ↦ elim (Bool-cases (ltb t s)) [
        | inl later ↦ cc (
          dates.iso_order t s (lt-of-ltb t s later) hs,
          text_lt_asymm (dates.iso s) (dates.iso t) h,
        )
        | inr n ↦
            let same : s ≡ t = omega tests in cc (text_lt_irrefl (dates.iso t), ap dates.iso same)
      ]
    ]
