-- ===== src/Rules/Windows.antt =====
-- The windows that the settings of a community require: `timelockHours`, `objectionThreshold`,
-- `objectionOverrideDays` and `applyAtFrom`.
use openfederation_pds.Base.{
  Bool-cases, leb, leb, Bool-cases, ◌⊎◌, ℕ, ◌≡◌, refl, Bool, true, false, not, ◌&&◌, arith,
}
use openfederation_pds.Json.{Num, whole, is_finite, is_integer, lt_nat, le_nat, Json, num}
use openfederation_pds.Dates.{Dates}
use openfederation_pds.Rules.{
  config, number_or, timelock_hours, objection_threshold, objection_override_days,
}

module _ (valid : Num → Bool) (default : ℕ) (v : Json) where
  number_or_valid : valid (whole default) ≡ true → valid (number_or valid default v) ≡ true
  unfolding number_or
  number_or_valid d = ground arith

  number_or_stated :
      le_nat (whole default) 0 ≡ false
      → (le_nat (number_or valid default v) 0 ≡ false) ⊎ (v ≡ num (number_or valid default v))
  unfolding number_or
  number_or_stated p = ground arith

both-left : (a b : Bool) → (a && not b) ≡ true → a ≡ true
both-left a b h = ground arith

both-right : (a b : Bool) → (a && not b) ≡ true → b ≡ false
both-right a b h = ground arith

-- Whatever the settings hold, the contest window is a finite number of hours, not negative, and it is
-- positive unless the settings state it; the objection threshold is an integer of at least 1; an
-- override round lasts a finite and positive number of days.
pub windows_safe :
    (settings : Json)
    → (is_finite (timelock_hours settings) ≡ true)
      × (lt_nat (timelock_hours settings) 0 ≡ false)
      × ((le_nat (timelock_hours settings) 0 ≡ false)
          ⊎ (config "timelockHours" settings ≡ num (timelock_hours settings)))
      × (is_integer (objection_threshold settings) ≡ true)
      × (lt_nat (objection_threshold settings) 1 ≡ false)
      × (is_finite (objection_override_days settings) ≡ true)
      × (le_nat (objection_override_days settings) 0 ≡ false)
unfolding timelock_hours objection_threshold objection_override_days is_finite is_integer lt_nat
    le_nat
windows_safe settings =
    let hours = config "timelockHours" settings in
    let window = number_or_valid (λ n. is_finite n && not (lt_nat n 0)) 24 hours refl in
    let bar =
      number_or_valid (λ n. is_integer n && not (lt_nat n 1)) 1
        (config "objectionThreshold" settings) refl in
    let days =
      number_or_valid (λ n. is_finite n && not (le_nat n 0)) 7
        (config "objectionOverrideDays" settings) refl in
    (
      both-left _ _ window,
      both-right _ _ window,
      number_or_stated (λ n. is_finite n && not (lt_nat n 0)) 24 hours refl,
      both-left _ _ bar,
      both-right _ _ bar,
      both-left _ _ days,
      both-right _ _ days,
    )
