-- ===== src/Tests/Rules.antt =====
-- Runs of the rules of src/governance/decision-rules.ts, and their theorems at concrete inputs.
use openfederation_pds.Base.{
  ◌≡◌, refl, ◌≢◌, ◌↔◌, some, none, [], ◌∷◌, arith, text_lt, true, ℕ, ◌≤◌, ◌<◌, ◌*◌, ◌+◌, false, ◌⊎◌,
}
use openfederation_pds.Json.{
  Json, undefined, whole, nan, str, num, obj, object, get, lookup, lt_nat, le_nat, nat_lt,
  is_finite, is_integer, plus_nat, min_nat, max_nat,
}
use openfederation_pds.Rules.{
  approved, rejected, decide_outcome, decide_override, override_quorum_from, VoteEligibility, for,
  countable_vote, check_vote_record, ObjectionEligibility, check_objection_record,
  countable_objection, proposal_collection, timelock_hours, objection_threshold,
  objection_override_days, config, configured_quorum, default_override_quorum, text_or_empty,
}
use openfederation_pds.Rules.Bars.{
  decide_outcome_iff, decide_outcome_stable, override_reachable, override_stronger,
  override_never_empty,
}
use openfederation_pds.Rules.Evidence.{
  IsCitedVote, check_vote_record_iff, IsAddressed, check_objection_record_iff, objection_window_iff,
}
use openfederation_pds.Rules.Windows.{windows_safe}
use openfederation_pds.Tests.Clock.{clock}

-- Ten members and a quorum of three: the bar of an override round is seven.
ten_members : override_quorum_from undefined (whole 3) 10 ≡ whole 7
unfolding override_quorum_from get configured_quorum default_override_quorum max_nat min_nat
    plus_nat lt_nat nat_lt
ten_members = refl

-- Two members and a quorum of three: the bar is capped at the electorate.
two_members : override_quorum_from undefined (whole 3) 2 ≡ whole 2
unfolding override_quorum_from get configured_quorum default_override_quorum max_nat min_nat
    plus_nat lt_nat nat_lt
two_members = refl

no_bar : config "objectionOverrideQuorum" undefined ≡ undefined
unfolding get
no_bar = refl

whole≢nan : (n : ℕ) → whole n ≢ nan
whole≢nan n = λ e. cc

three_below_ten : lt_nat (whole 3) 10 ≡ true
unfolding lt_nat
three_below_ten = refl

seven_carry : decide_override 7 (override_quorum_from undefined (whole 3) 10) ≡ some approved
unfolding decide_override override_quorum_from get configured_quorum default_override_quorum max_nat
    min_nat plus_nat lt_nat nat_lt le_nat
seven_carry = refl

override_stronger_example : (lt_nat (whole 3) 7 ≡ true) × (10 * 2 ≤ 7 * 3)
override_stronger_example =
    override_stronger undefined (whole 3) 10 7 no_bar (whole≢nan 3) three_below_ten seven_carry

override_reachable_example :
    decide_override 10 (override_quorum_from undefined (whole 3) 10) ≡ some approved
override_reachable_example =
    override_reachable undefined (whole 3) 10 no_bar (whole≢nan 3) (omega arith)

override_never_empty_example :
    (decide_override 0 (override_quorum_from undefined (whole 3) 10) ≡ none)
    × (decide_override 6 (override_quorum_from undefined (whole 3) 10) ≢ some rejected)
override_never_empty_example = override_never_empty undefined (whole 3) 10 6

decide_outcome_iff_example :
    ((decide_outcome 2 1 (whole 3) ≡ none) ↔ (2 + 1 < 3))
    × ((decide_outcome 2 1 (whole 3) ≡ some approved) ↔ ((3 ≤ 2 + 1) × (1 < 2)))
    × ((decide_outcome 2 1 (whole 3) ≡ some rejected) ↔ ((3 ≤ 2 + 1) × (2 ≤ 1)))
decide_outcome_iff_example = decide_outcome_iff 2 1 3

two_to_one : decide_outcome 2 1 (whole 3) ≡ some approved
unfolding decide_outcome nat_lt
two_to_one = refl

decide_outcome_stable_example : decide_outcome 3 1 (whole 3) ≡ some approved
decide_outcome_stable_example = decide_outcome_stable 2 1 (whole 3) approved two_to_one

abbrev vote_context : VoteEligibility
vote_context = record {
  proposal_uri = "at://did:c/net.openfederation.community.proposal/p1";
  known_cids = "cid1" ∷ [];
  epoch = some "2026-01-01";
}

abbrev vote_record : Json
vote_record = obj (
    object (
      ("vote", str "for")
      ∷ ("proposalCollection", str proposal_collection)
      ∷ (
        "proposal",
        obj (object (("uri", str vote_context.proposal_uri) ∷ ("cid", str "cid1") ∷ [])),
      )
      ∷ ("createdAt", str "2026-01-02")
      ∷ []))

check_vote_record_iff_example :
    (check_vote_record vote_record vote_context ≡ countable_vote for "cid1" "2026-01-02")
    ↔ IsCitedVote vote_record vote_context for "cid1" "2026-01-02"
check_vote_record_iff_example =
    check_vote_record_iff vote_record vote_context for "cid1" "2026-01-02"

-- The window of the objections: from the instant 10 to the instant 20 of the clock.
abbrev objection_context : ObjectionEligibility
objection_context = record {
  proposal_uri = "at://did:c/net.openfederation.community.proposal/p1";
  decision_uri = "at://did:c/net.openfederation.governance.decision/d1";
  decision_cid = "cid2";
  resolved_at = clock.iso 10;
  apply_at = clock.iso 20;
}

abbrev objection_record : Json
objection_record = obj (
    object (
      ("proposalCollection", str proposal_collection)
      ∷ ("proposal", obj (object (("uri", str objection_context.proposal_uri) ∷ [])))
      ∷ (
        "decision",
        obj (object (("uri", str objection_context.decision_uri) ∷ ("cid", str "cid2") ∷ [])),
      )
      ∷ ("createdAt", str (clock.iso 15))
      ∷ []))

created_at_15 : get "createdAt" objection_record ≡ str (clock.iso 15)
unfolding get lookup
created_at_15 = refl

objection_record-IsAddressed : IsAddressed objection_record objection_context
unfolding get lookup
objection_record-IsAddressed = record {
  proposal = refl;
  collection = refl;
  decision = refl;
  state = refl;
}

objection_window_iff_example :
    (check_objection_record objection_record objection_context ≡ countable_objection (clock.iso 15))
    ↔ ((10 ≤ 15) × (15 < 20))
objection_window_iff_example =
    objection_window_iff clock objection_record objection_context 10 20 15 (omega arith)
      (omega arith) (omega arith) refl refl created_at_15 objection_record-IsAddressed

check_objection_record_iff_example :
    (check_objection_record objection_record objection_context ≡ countable_objection (clock.iso 15))
    ↔ (IsAddressed objection_record objection_context
        × (text_or_empty (get "createdAt" objection_record) ≡ clock.iso 15)
        × (clock.iso 15 ≢ "")
        × (text_lt (clock.iso 15) objection_context.resolved_at ≡ false)
        × (text_lt (clock.iso 15) objection_context.apply_at ≡ true))
check_objection_record_iff_example =
    check_objection_record_iff objection_record objection_context (clock.iso 15)

windows_safe_example :
    (is_finite (timelock_hours undefined) ≡ true)
    × (lt_nat (timelock_hours undefined) 0 ≡ false)
    × ((le_nat (timelock_hours undefined) 0 ≡ false)
        ⊎ (config "timelockHours" undefined ≡ num (timelock_hours undefined)))
    × (is_integer (objection_threshold undefined) ≡ true)
    × (lt_nat (objection_threshold undefined) 1 ≡ false)
    × (is_finite (objection_override_days undefined) ≡ true)
    × (le_nat (objection_override_days undefined) 0 ≡ false)
windows_safe_example = windows_safe undefined
