-- ===== src/Tests/Records.antt =====
-- The theorems about vote and objection records and about the tally at concrete inputs.
use mathlib.Core.List.{Memᴰ}
use openfederation_pds.Base.{
  ◌≡◌, refl, ◌≢◌, ◌↔◌, some, none, [], ◌∷◌, String, text_lt, true, false, ◌≤◌, ◌+◌, length,
  includes,
}
use openfederation_pds.Json.{
  arr, cons, nil, strings, as_str, coalesce, is_str, Json, whole, null, str, obj, object, bool, get,
  lookup, as_array,
}
use openfederation_pds.Rules.{
  QuorumRule, VoteChoice, decision_collection, for, countable_vote, check_vote_record,
  vote_order_key, vote_collection, ObjectionEligibility, approved, proposal_uri, before_epoch,
  check_objection_record, countable_objection, decide_outcome, known_proposal_cids, tally_epoch,
}
use openfederation_pds.Index.{World, Repo, Row}
use openfederation_pds.Settings.{role_collection}
use openfederation_pds.Electorate.{member_collection, is_eligible}
use openfederation_pds.Resolution.{
  counted_vote, standing_of, scan_of, tally_from_vote_records, vote_context, votes_on, RecordTally,
  decide_from_records,
}
use openfederation_pds.Resolution.Laws.{votes_by, one_vote, decide_from_records_iff}
use openfederation_pds.Resolution.Sides.{side_of}
use openfederation_pds.Resolution.Earliest.{earliest_stands}
use openfederation_pds.Resolution.Decision.{DecisionRef}
use openfederation_pds.Records.{
  VoteRecordInput, ObjectionRecordInput, vote_record_json, objection_record_json, member_evidence,
}
use openfederation_pds.Records.Laws.{written_vote_counts, written_objection_counts, evidence_agrees}

abbrev vote_input : VoteRecordInput
vote_input = record {
  voter_did = "did:v";
  community_did = "did:c";
  proposal_rkey = "p1";
  proposal_cid = "cid1";
  vote = for;
  cast_by = none;
  delegation = none;
}

abbrev proposal : Json
proposal = obj (object (("createdAt", str "2026-01-01") ∷ []))

cid_known : includes "cid1" (vote_context "did:c" "p1" proposal "cid1").known_cids ≡ true
unfolding known_proposal_cids get lookup as_array includes strings
cid_known = refl

after_epoch : before_epoch (vote_context "did:c" "p1" proposal "cid1").epoch "2026-01-02" ≡ false
unfolding before_epoch tally_epoch get lookup as_array text_lt as_str coalesce
after_epoch = refl

abbrev written_vote : Json
written_vote = vote_record_json vote_input null "2026-01-02"

written_vote_counts_example :
    check_vote_record
      (vote_record_json vote_input null "2026-01-02")
      (vote_context "did:c" "p1" proposal "cid1")
    ≡ countable_vote for "cid1" "2026-01-02"
written_vote_counts_example =
    written_vote_counts vote_input null "2026-01-02" (vote_context "did:c" "p1" proposal "cid1")
      refl cid_known after_epoch

abbrev vote_row : Row
vote_row = record {
  did = "did:v";
  collection = vote_collection;
  rkey = "r1";
  cid = "cid7";
  rec = written_vote;
}

on_proposal : votes_on "did:c" "p1" vote_row ≡ true
unfolding votes_on get lookup vote_record_json is_str
on_proposal = refl

counts :
    check_vote_record vote_row.rec (vote_context "did:c" "p1" proposal "cid1")
    ≡ countable_vote for "cid1" "2026-01-02"
counts =
    written_vote_counts vote_input null "2026-01-02" (vote_context "did:c" "p1" proposal "cid1")
      refl cid_known after_epoch

earliest_stands_example :
    (x : Row) × (v : VoteChoice) × (known : String) × (time : String) × Memᴰ x (vote_row ∷ [])
    × (votes_on "did:c" "p1" x ≡ true)
    × (x.did ≡ "did:v")
    × (check_vote_record x.rec (vote_context "did:c" "p1" proposal "cid1")
        ≡ countable_vote v known time)
    × (standing_of "did:v" (scan_of (vote_row ∷ []) "did:c" "p1" proposal "cid1").counted
        ≡ some (record { vote = counted_vote x v known; key = vote_order_key time x.rkey }))
    × (text_lt (vote_order_key "2026-01-02" "r1") (vote_order_key time x.rkey) ≡ false)
    × Memᴰ
        (counted_vote x v known)
        (side_of v (tally_from_vote_records (vote_row ∷ []) "did:c" "p1" proposal "cid1"))
earliest_stands_example =
    earliest_stands (vote_row ∷ []) "did:c" "p1" proposal "cid1" vote_row for "cid1" "2026-01-02"
      (Memᴰ.head refl) on_proposal counts

one_vote_example :
    votes_by "did:v"
        (tally_from_vote_records (vote_row ∷ vote_row ∷ []) "did:c" "p1" proposal "cid1").votes_for
      + votes_by "did:v"
          (tally_from_vote_records
            (vote_row ∷ vote_row ∷ [])
            "did:c"
            "p1"
            proposal
            "cid1").votes_against
    ≤ 1
one_vote_example = one_vote (vote_row ∷ vote_row ∷ []) "did:c" "p1" proposal "cid1" "did:v"

abbrev empty_tally : RecordTally
empty_tally = record { votes_for = []; votes_against = []; uncounted = [] }

decide_from_records_iff_example :
    let by_records = decide_outcome 0 0 (whole 3) in
    let by_cache =
      decide_outcome
        (length (as_array (get "votesFor" proposal)))
        (length (as_array (get "votesAgainst" proposal)))
        (whole 3) in
    let decision = decide_from_records empty_tally proposal (whole 3) in
    ((decision.outcome ≡ some approved)
      ↔ ((by_records ≡ some approved) × (by_cache ≡ some approved)))
    × ((decision.deferred ≡ true) ↔ (by_records ≢ by_cache))
decide_from_records_iff_example = decide_from_records_iff empty_tally proposal (whole 3) approved

abbrev objection_input : ObjectionRecordInput
objection_input = record {
  objector_did = "did:o";
  community_did = "did:c";
  proposal_rkey = "p1";
  proposal_cid = "cid1";
  decision = record { uri = "at://did:c/net.openfederation.governance.decision/d1"; cid = "cid2" };
  reason = some "too soon";
}

abbrev window : ObjectionEligibility
window = record {
  proposal_uri = proposal_uri "did:c" "p1";
  decision_uri = "at://did:c/net.openfederation.governance.decision/d1";
  decision_cid = "cid2";
  resolved_at = "2026-01-02";
  apply_at = "2026-01-03";
}

abbrev objected_at : String
objected_at = "2026-01-02T05"

written_objection_counts_example :
    (check_objection_record (objection_record_json objection_input objected_at) window
      ≡ countable_objection objected_at)
    ↔ ((objected_at ≢ "")
        × (text_lt objected_at "2026-01-02" ≡ false)
        × (text_lt objected_at "2026-01-03" ≡ true))
written_objection_counts_example =
    written_objection_counts objection_input objected_at window refl refl refl

abbrev voting_member_row : Row
voting_member_row = record {
  did = "did:c";
  collection = member_collection;
  rkey = "m1";
  cid = "cid3";
  rec = obj (object (("roleRkey", str "mod") ∷ []));
}

abbrev role_row : Row
role_row = record {
  did = "did:c";
  collection = role_collection;
  rkey = "mod";
  cid = "cid4";
  rec = obj (object []);
}

evidence_agrees_example :
    get "grantedGovernanceWrite"
      (member_evidence (voting_member_row ∷ role_row ∷ []) "did:c" (some voting_member_row))
    ≡ bool (is_eligible (voting_member_row ∷ role_row ∷ []) "did:c" voting_member_row.rec)
evidence_agrees_example =
    evidence_agrees (voting_member_row ∷ role_row ∷ []) "did:c" voting_member_row

abbrev one_tally : RecordTally
one_tally = record {
  votes_for =
      record {
        voter = "did:v";
        vote = for;
        uri = "at://did:v/net.openfederation.governance.vote/r1";
        cid = "cid7";
        proposal_cid = "cid1";
        cast_by = none;
      }
      ∷ [];
  votes_against = [];
  uncounted = [];
}

abbrev decision_row : Row
decision_row = record {
  did = "did:c";
  collection = decision_collection;
  rkey = "d1";
  cid = "cid2";
  rec = obj (
      object (
        ("proposalRkey", str "p1")
        ∷ ("outcome", str "approved")
        ∷ (
          "votes",
          arr (cons (obj (object (("record", obj (object (("cid", str "cid7") ∷ []))) ∷ []))) nil),
        )
        ∷ []));
}

abbrev written_ref : DecisionRef
written_ref = record {
  uri = "at://did:c/net.openfederation.governance.decision/d1";
  cid = "cid2";
  rkey = "d1";
}

abbrev majority : QuorumRule
majority = record { model = "simple-majority"; threshold = whole 1; rule = "majority" }

abbrev records_repo : Repo
records_repo = record { cid_for = λ _. "cid9"; has_key = λ _. true; has_repo = λ _. true }

abbrev decided_world : World
decided_world = record { rows = decision_row ∷ []; audit = [] }
