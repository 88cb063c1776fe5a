-- ===== src/Tests/Unapplied.antt =====
-- Votes that leave the record that a proposal is about.
use openfederation_pds.Dates.{shifted}
use openfederation_pds.Timelock.Apply.{proposal_write_op, pending_application_state}
use openfederation_pds.Resolution.Prepare.{prepare_decision_record}
use openfederation_pds.Timelock.Merge.{community_settings_record}
use openfederation_pds.Timelock.Objections.{ordinary_quorum}
use openfederation_pds.Resolution.{tally_from_vote_records, decide_from_records}
use openfederation_pds.Base.{text_lt, includes, ◌≡◌, refl, false, some, [], ◌∷◌}
use openfederation_pds.Json.{
  lt_nat, is_finite, le_nat, coalesce, as_num, truthy, nat_lt, put, get, as_array, strings, lookup,
  is_str, frac, str, num, obj, object, Fields, of_strings,
}
use openfederation_pds.Rules.{
  apply_at_from, timelock_hours, tally_epoch, known_proposal_cids, proposal_uri, check_vote_record,
  decide_outcome, uses_vote_record_evidence, for, settings_collection, evidence_model_vote_records,
}
use openfederation_pds.Index.{audit_log, put_record, row_is, find_row, Row, World}
use openfederation_pds.Voting.{vote_locked, recorded_vote}
use openfederation_pds.Voting.Resolving.{Recorded}
use openfederation_pds.Lifecycle.Outside.{IsOutside, IsUntouched}
use openfederation_pds.Lifecycle.Unapplied.{unapplied_vote}
use openfederation_pds.Lifecycle.Waiting.{window_waits}
use openfederation_pds.Tests.Clock.{size, clock_time, tally, marked, clock_text, clock}
use openfederation_pds.Tests.Timelock.{repo, proposal_row}
use openfederation_pds.Tests.Voting.{
  show, no_member, able, keys, open_world, voted_world, still_open, run_voted,
}

profile-IsOutside : IsOutside "net.openfederation.community.profile"
profile-IsOutside = record { proposals = refl; votes = refl; decisions = refl }

unapplied_vote_example :
    IsUntouched "did:c" "net.openfederation.community.profile" "self" open_world.rows
      voted_world.rows
unapplied_vote_example =
    unapplied_vote clock repo show no_member able keys "did:c" "p1" "did:v" for 5 "did:c"
      "net.openfederation.community.profile" "self" open_world voted_world still_open
      profile-IsOutside run_voted refl

abbrev evidence_proposal : Fields
evidence_proposal = object (
    ("status", str "open")
    ∷ ("action", str "delete")
    ∷ ("targetCollection", str "net.openfederation.community.profile")
    ∷ ("targetRkey", str "self")
    ∷ ("votesFor", of_strings [])
    ∷ ("votesAgainst", of_strings [])
    ∷ ("evidenceModel", str evidence_model_vote_records)
    ∷ ("createdAt", str "a")
    ∷ [])

-- A community that decides by one vote and has a window of a millisecond.
abbrev quick_settings : Row
quick_settings = record {
  did = "did:c";
  collection = settings_collection;
  rkey = "self";
  cid = "cid0";
  rec = obj (
      object (
        ("governanceModel", str "simple-majority")
        ∷ (
          "governanceConfig",
          obj (
              object (
                ("quorum", num (frac false 1 0))
                ∷ ("timelockHours", num (frac false 1 3599999))
                ∷ [])),
        )
        ∷ []));
}

abbrev quick_world : World
quick_world = record { rows = proposal_row evidence_proposal ∷ quick_settings ∷ []; audit = [] }

abbrev decided_world : World
decided_world =
    (vote_locked clock repo show no_member able keys "did:c" "p1" "did:v" for 5 quick_world).1

abbrev waiting : Recorded
waiting = record {
  status = str "pending-application";
  is_applied = false;
  apply_at = some "bbbbbbb";
  is_deferred = false;
}

run_decided :
    vote_locked clock repo show no_member able keys "did:c" "p1" "did:v" for 5 quick_world
    ≡ (some (recorded_vote waiting), decided_world)
unfolding vote_locked find_row row_is is_str lookup includes strings as_array of_strings
    uses_vote_record_evidence get put decide_from_records decide_outcome nat_lt ordinary_quorum
    truthy community_settings_record put_record as_num tally_from_vote_records check_vote_record
    proposal_uri known_proposal_cids tally_epoch coalesce text_lt clock_text marked tally
    prepare_decision_record pending_application_state le_nat timelock_hours is_finite lt_nat
    apply_at_from clock_time shifted size proposal_write_op audit_log
run_decided = refl

window_waits_example :
    (waiting.is_applied ≡ false)
    × IsUntouched "did:c" "net.openfederation.community.profile" "self" quick_world.rows
        decided_world.rows
window_waits_example =
    window_waits clock repo show no_member able keys "did:c" "p1" "did:v" for 5 "did:c"
      "net.openfederation.community.profile" "self" "bbbbbbb" quick_world decided_world waiting
      profile-IsOutside run_decided refl
