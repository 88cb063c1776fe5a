-- ===== src/Tests/Epoch.antt =====
-- A vote on a proposal that was amended.
use openfederation_pds.Base.{◌≡◌, refl, false, none, [], ◌∷◌, text_lt, includes}
use openfederation_pds.Json.{
  Json, str, obj, object, get, lookup, put, is_str, as_str, as_array, strings, coalesce, list_items,
}
use openfederation_pds.Rules.{
  for, proposal_collection, proposal_uri, check_vote_record, countable_vote, vote_value,
  known_proposal_cids, tally_epoch,
}
use openfederation_pds.Resolution.{vote_context}
use openfederation_pds.Timelock.Apply.{with_lineage}
use openfederation_pds.Proposing.Amending.{amended_fields}
use openfederation_pds.Proposing.Epoch.{amended_votes}
use openfederation_pds.Tests.Voting.{open_proposal}

abbrev late_vote : Json
late_vote = obj (
    object (
      ("vote", str "for")
      ∷ (
        "proposal",
        obj (object (("uri", str (proposal_uri "did:c" "p1")) ∷ ("cid", str "cid1") ∷ [])),
      )
      ∷ ("proposalCollection", str proposal_collection)
      ∷ ("createdAt", str "2026-01-03")
      ∷ []))

abbrev amended_proposal : Json
amended_proposal = obj (
    with_lineage [] "did:c" "p1"
      (amended_fields open_proposal (obj (object [])) "did:a" "2026-01-02" none "2026-01-09"))

run_counted :
    check_vote_record late_vote (vote_context "did:c" "p1" amended_proposal "cid1")
    ≡ countable_vote for "cid1" "2026-01-03"
unfolding check_vote_record vote_value get lookup is_str proposal_uri as_str includes
    known_proposal_cids strings as_array with_lineage amended_fields put tally_epoch coalesce
    list_items text_lt
run_counted = refl

amended_votes_example : text_lt "2026-01-03" "2026-01-02" ≡ false
unfolding lookup as_str
amended_votes_example =
    amended_votes [] "did:c" "p1" open_proposal (obj (object [])) "did:a" "2026-01-02" none
      "2026-01-09" "cid1" late_vote for "cid1" "2026-01-03" refl refl run_counted
