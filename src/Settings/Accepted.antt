-- ===== src/Settings/Accepted.antt =====
-- How the governance rules read settings that pass the check.
use openfederation_pds.Base.{
  inl, inr, ap, ap, inr, inl, ℕ, ◌≡◌, refl, Bool, true, false, not, ◌&&◌, ◌⊎◌, Option, some, none,
  String, str_eq, eq_iff, arith,
}
use openfederation_pds.Json.{
  bool, arr, undefined, undefined, Num, is_finite, is_integer, lt_nat, le_nat, Json, null, num, str,
  obj, Fields, end, field, lookup, get, is_null, is_str,
}
use openfederation_pds.Rules.{
  override_quorum_from, configured_quorum, config, number_or, timelock_hours, objection_threshold,
  objection_override_days, no_review, override, objection_review_mode,
}
use openfederation_pds.Settings.{
  SettingsProblem, or_else, require, number_is, optional_number, review_ok, check_quorum,
  check_objection_rules, check_voting_config, check_config, without_nulls, strip_removals,
  check_known_model, is_voting_model, check_governance_settings, known_model,
}

lookup-without_nulls :
    (k : String) (c : Fields) (v : Json)
    → lookup k c ≡ v
    → is_null v ≡ false
    → lookup k (without_nulls c) ≡ v
unfolding lookup without_nulls
lookup-without_nulls k end v e n = e
lookup-without_nulls k (field j null c) v e n = ground (arith, lookup-without_nulls k c v)
lookup-without_nulls k (field j w c) v e n = ground (arith, lookup-without_nulls k c v)

or_else-none : (p q : Option SettingsProblem) → or_else p q ≡ none → (p ≡ none) × (q ≡ none)
unfolding or_else
or_else-none none q h = (refl, h)
or_else-none (some p) q h = cc

-- The five optional rules of a config that the check accepts.
record AreStated (c : Fields) : Type 0 where
  timelock :
      optional_number (λ n. is_finite n && not (lt_nat n 0)) (lookup "timelockHours" c) ≡ true
  threshold :
      optional_number (λ n. is_integer n && not (lt_nat n 1)) (lookup "objectionThreshold" c) ≡ true
  review : review_ok (lookup "objectionReview" c) ≡ true
  days :
      optional_number (λ n. is_finite n && not (le_nat n 0)) (lookup "objectionOverrideDays" c)
      ≡ true
  bar :
      optional_number (λ n. is_integer n && not (lt_nat n 1)) (lookup "objectionOverrideQuorum" c)
      ≡ true

require-none : (b : Bool) (p : SettingsProblem) → require b p ≡ none → b ≡ true
unfolding require
require-none true p h = refl
require-none false p h = cc

rules-AreStated : (c : Fields) → check_objection_rules c ≡ none → AreStated c
unfolding check_objection_rules
rules-AreStated c h =
    let (t, h1) = or_else-none _ _ h in
    let (o, h2) = or_else-none _ _ h1 in
    let (r, h3) = or_else-none _ _ h2 in
    let (q, d) = or_else-none _ _ h3 in
    record {
      timelock = require-none _ _ t;
      threshold = require-none _ _ o;
      review = require-none _ _ r;
      days = require-none _ _ d;
      bar = require-none _ _ q;
    }

judged-lookup :
    (c : Fields) (k : String) (v : Json)
    → lookup k c ≡ v
    → is_null v ≡ false
    → lookup k (strip_removals c).0 ≡ v
unfolding strip_removals
judged-lookup c k v e n = ground (arith, lookup-without_nulls k c v e n)

voting-AreStated :
    (c : Fields) (required normalize : Bool)
    → (check_voting_config c required normalize).0 ≡ none
    → AreStated c
unfolding check_voting_config
voting-AreStated c required normalize h =
    rules-AreStated c
      (or_else-none (check_quorum c required) (check_objection_rules c) (ground arith)).1

config-AreStated :
    (model : String) (normalize : Bool) (c : Fields)
    → is_voting_model model ≡ true
    → (check_config model normalize c).0 ≡ none
    → AreStated c
unfolding check_config
config-AreStated model normalize c voting h =
    voting-AreStated c (str_eq model "simple-majority") normalize
      (or_else-none _ _ (rw voting at h)).0

settings-AreStated :
    (governance_model : Json) (c : Fields) (model : String) (normalize : Bool)
    → known_model governance_model ≡ some model
    → is_voting_model model ≡ true
    → (check_governance_settings governance_model (obj c) normalize).problem ≡ none
    → AreStated (strip_removals c).0
unfolding check_governance_settings check_known_model
settings-AreStated governance_model c model normalize known voting h =
    config-AreStated model normalize (strip_removals c).0 voting
      (rw (known, check_governance_settings) at h)

-- A key that is absent, or removed by `null`.
abbrev pub IsUnset : Json → Type 0
IsUnset v = (v ≡ undefined) ⊎ (v ≡ null)

-- What the rules read in a settings record is what the record states, where it states anything.
pub record IsReadAsStated (settings : Json) : Type 0 where
  pub timelock :
      IsUnset (config "timelockHours" settings)
      ⊎ (config "timelockHours" settings ≡ num (timelock_hours settings))
  pub threshold :
      IsUnset (config "objectionThreshold" settings)
      ⊎ (config "objectionThreshold" settings ≡ num (objection_threshold settings))
  pub days :
      IsUnset (config "objectionOverrideDays" settings)
      ⊎ (config "objectionOverrideDays" settings ≡ num (objection_override_days settings))
  pub bar :
      (quorum : Num) (eligible : ℕ)
      → IsUnset (config "objectionOverrideQuorum" settings)
        ⊎ (config "objectionOverrideQuorum" settings
            ≡ num (override_quorum_from settings quorum eligible))
  pub review :
      IsUnset (config "objectionReview" settings)
      ⊎ ((config "objectionReview" settings ≡ str "none")
          × (objection_review_mode settings ≡ no_review))
      ⊎ ((config "objectionReview" settings ≡ str "override")
          × (objection_review_mode settings ≡ override))

module _ (valid : Num → Bool) (default : ℕ) where
  number_or-stated :
      (v w : Json)
      → optional_number valid w ≡ true
      → (is_null v ≡ false → w ≡ v)
      → IsUnset v ⊎ (v ≡ num (number_or valid default v))
  unfolding number_or optional_number number_is
  number_or-stated undefined w h e = inl (inl refl)
  number_or-stated null w h e = inl (inr refl)
  number_or-stated (num n) w h e = let ok : valid n ≡ true = rw (e refl) at h in rw ok (inr refl)
  number_or-stated (bool b) w h e = let ok = rw (e refl) at h in cc
  number_or-stated (str s) w h e = let ok = rw (e refl) at h in cc
  number_or-stated (arr xs) w h e = let ok = rw (e refl) at h in cc
  number_or-stated (obj fs) w h e = let ok = rw (e refl) at h in cc

quorum_stated :
    (v w : Json) (default : Num)
    → optional_number (λ n. is_integer n && not (lt_nat n 1)) w ≡ true
    → (is_null v ≡ false → w ≡ v)
    → IsUnset v ⊎ (v ≡ num (configured_quorum v default))
unfolding configured_quorum optional_number number_is
quorum_stated undefined w default h e = inl (inl refl)
quorum_stated null w default h e = inl (inr refl)
quorum_stated (num n) w default h e = let ok = rw (e refl) at h in rw ok (inr refl)
quorum_stated (bool b) w default h e = let ok = rw (e refl) at h in cc
quorum_stated (str s) w default h e = let ok = rw (e refl) at h in cc
quorum_stated (arr xs) w default h e = let ok = rw (e refl) at h in cc
quorum_stated (obj fs) w default h e = let ok = rw (e refl) at h in cc

review_stated :
    (settings v w : Json)
    → config "objectionReview" settings ≡ v
    → review_ok w ≡ true
    → (is_null v ≡ false → w ≡ v)
    → IsUnset v
      ⊎ ((v ≡ str "none") × (objection_review_mode settings ≡ no_review))
      ⊎ ((v ≡ str "override") × (objection_review_mode settings ≡ override))
unfolding objection_review_mode review_ok is_str
review_stated settings undefined w c h e = inl (inl refl)
review_stated settings null w c h e = inl (inr refl)
review_stated settings (str s) w c h e =
    let ok = rw (e refl) at h in
    inr (rw c (ground (arith, ap str, eq_iff s "none", eq_iff s "override")))
review_stated settings (num n) w c h e = let ok = rw (e refl) at h in cc
review_stated settings (bool b) w c h e = let ok = rw (e refl) at h in cc
review_stated settings (arr xs) w c h e = let ok = rw (e refl) at h in cc
review_stated settings (obj fs) w c h e = let ok = rw (e refl) at h in cc

-- If the settings of a community under a known voting model pass the check, then each of the contest
-- window, the objection threshold, the days and the quorum of an override round and the review mode is
-- either not stated (absent or `null`), or read by the governance rules as it is stated, whatever the
-- ordinary quorum and the electorate.
pub accepted_read :
    (settings : Json) (c : Fields) (model : String) (normalize : Bool)
    → get "governanceConfig" settings ≡ obj c
    → known_model (get "governanceModel" settings) ≡ some model
    → is_voting_model model ≡ true
    → (check_governance_settings
        (get "governanceModel" settings)
        (get "governanceConfig" settings)
        normalize).problem
      ≡ none
    → IsReadAsStated settings
unfolding timelock_hours objection_threshold objection_override_days override_quorum_from get
accepted_read settings c model normalize e known voting h =
    let stated =
      settings-AreStated (get "governanceModel" settings) c model normalize known voting
        (rw e at h) in
    let read = λ (k : String) (n : is_null (config k settings) ≡ false).
      judged-lookup c k (config k settings) (rw e refl) n in
    record {
      timelock = number_or-stated _ _ _ _ stated.timelock (read "timelockHours");
      threshold = number_or-stated _ _ _ _ stated.threshold (read "objectionThreshold");
      days = number_or-stated _ _ _ _ stated.days (read "objectionOverrideDays");
      bar = λ quorum eligible. quorum_stated _ _ _ stated.bar (read "objectionOverrideQuorum");
      review = review_stated settings _ _ refl stated.review (read "objectionReview");
    }
