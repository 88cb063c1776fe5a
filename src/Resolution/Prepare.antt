-- ===== src/Resolution/Prepare.antt =====
-- The fields of a decision record, and the decision of a resolution: the second half of
-- `prepareDecisionRecord` of src/governance/proposal-resolution.ts.
use openfederation_pds.Base.{
  Bool, true, false, Option, none, some, List, [], ◌∷◌, ◌++◌, String, ◌<>◌, if◌then◌else◌, length,
}
use openfederation_pds.Json.{whole, Json, bool, num, str, arr, obj, object, get, truthy, list_items}
use openfederation_pds.Rules.{
  Reason, invalid_vote_value, proposal_uri_mismatch, unknown_proposal_cid, stale_vote_record,
  decision_mismatch, objection_predates_decision, late_objection, Outcome, QuorumRule,
  decision_collection, proposal_collection, proposal_uri,
}
use openfederation_pds.Index.{Repo, Act, ◌>>◌, pure, Op, write, audit_log}
use openfederation_pds.Records.{StrongRef, ref_json, optional_text, optional_ref, choice_json}
use openfederation_pds.Resolution.{CountedVote, UncountedVote, RecordTally}
use openfederation_pds.Resolution.Decision.{
  DecisionRef, outcome_text, latest_decision, is_reusable, counted_cids, decision_ref,
}

unfoldable pub reason_text : Option Reason → String
reason_text none = "no-vote-record"
reason_text (some invalid_vote_value) = "invalid-vote-value"
reason_text (some proposal_uri_mismatch) = "proposal-uri-mismatch"
reason_text (some unknown_proposal_cid) = "unknown-proposal-cid"
reason_text (some stale_vote_record) = "stale-vote-record"
reason_text (some decision_mismatch) = "decision-mismatch"
reason_text (some objection_predates_decision) = "objection-predates-decision"
reason_text (some late_objection) = "late-objection"

unfoldable pub vote_json : CountedVote → Json
unfolding choice_json ref_json optional_text
vote_json v = obj (
    object (
      ("voter", str v.voter)
      ∷ ("vote", choice_json v.vote)
      ∷ ("record", ref_json (record { uri = v.uri; cid = v.cid }))
      ∷ ("proposalCid", str v.proposal_cid)
      ∷ optional_text "castBy" v.cast_by))

unfoldable pub votes_json : List CountedVote → List Json
unfolding vote_json
votes_json [] = []
votes_json (v ∷ vs) = vote_json v ∷ votes_json vs

unfoldable pub uncounted_json : List UncountedVote → List Json
unfolding choice_json reason_text
uncounted_json [] = []
uncounted_json (u ∷ us) =
    obj (
      object (
        ("voter", str u.voter)
        ∷ ("vote", choice_json u.vote)
        ∷ ("reason", str (reason_text u.reason))
        ∷ []))
    ∷ uncounted_json us

unfoldable pub uncounted_key : List UncountedVote → List (String × Json)
unfolding uncounted_json
uncounted_key [] = []
uncounted_key (u ∷ us) = ("uncountedVotes", arr (list_items (uncounted_json (u ∷ us)))) ∷ []

unfoldable pub is_complete : List UncountedVote → Bool
is_complete [] = true
is_complete (u ∷ us) = false

unfoldable pub quorum_json : QuorumRule → Json
quorum_json q =
    obj
      (object (("model", str q.model) ∷ ("threshold", num q.threshold) ∷ ("rule", str q.rule) ∷ []))

unfoldable pub tally_json : RecordTally → Json
tally_json t = obj (
    object (
      ("votesFor", num (whole (length t.votes_for)))
      ∷ ("votesAgainst", num (whole (length t.votes_against)))
      ∷ ("total", num (whole (length (t.votes_for ++ t.votes_against))))
      ∷ []))

-- The `action` of a proposal that names all three of its parts.
unfoldable pub action_key : Json → List (String × Json)
action_key proposal =
    let collection = get "targetCollection" proposal in
    let rkey = get "targetRkey" proposal in
    let action = get "action" proposal in
    if truthy collection
    then (if truthy rkey
        then (if truthy action
            then (
              "action",
              obj (
                  object (
                    ("targetCollection", collection)
                    ∷ ("targetRkey", rkey)
                    ∷ ("action", action)
                    ∷ [])),
            )
              ∷ []
            else [])
        else [])
    else []

unfoldable pub decision_json :
    String
    → String
    → String
    → Json
    → RecordTally
    → QuorumRule
    → Outcome
    → Option StrongRef
    → String
    → Json
unfolding ref_json quorum_json tally_json votes_json uncounted_key is_complete optional_ref
    action_key outcome_text
decision_json did proposal_rkey proposal_cid proposal tally quorum outcome supersedes now = obj (
    object (
      ("$type", str decision_collection)
        ∷ ("community", str did)
        ∷ (
          "proposal",
          ref_json (record { uri = proposal_uri did proposal_rkey; cid = proposal_cid }),
        )
        ∷ ("proposalCollection", str proposal_collection)
        ∷ ("proposalRkey", str proposal_rkey)
        ∷ ("outcome", str (outcome_text outcome))
        ∷ ("quorum", quorum_json quorum)
        ∷ ("tally", tally_json tally)
        ∷ ("votes", arr (list_items (votes_json (tally.votes_for ++ tally.votes_against))))
        ∷ uncounted_key tally.uncounted
      ++ ("evidenceComplete", bool (is_complete tally.uncounted))
        ∷ optional_ref "supersedes" supersedes
      ++ action_key proposal
      ++ ("resolvedAt", str now) ∷ []))

-- The decision that a resolution cites, and its write if it is a fresh one.
pub record Prepared : Type 0 where
  pub ref : DecisionRef
  pub ops : List Op

module _ (repo : Repo) (did proposal_rkey proposal_cid : String) (proposal : Json)
    (tally : RecordTally) (quorum : QuorumRule) (outcome : Outcome) (rkey now : String) where
  unfoldable pub fresh_decision : Option StrongRef → Prepared
  unfolding decision_json
  fresh_decision supersedes =
      let rec =
        decision_json did proposal_rkey proposal_cid proposal tally quorum outcome supersedes now in
      record {
        ref = record {
          uri = "at://" <> (did <> ("/" <> (decision_collection <> ("/" <> rkey))));
          cid = repo.cid_for rec;
          rkey = rkey;
        };
        ops = write decision_collection rkey rec ∷ [];
      }

  unfoldable pub supersede_decision : DecisionRef → Act Prepared
  unfolding fresh_decision
  supersede_decision old = do
    audit_log "community.proposal.decision.superseded" did proposal_rkey
    pure (fresh_decision (some (record { uri = old.uri; cid = old.cid })))

  unfoldable pub prepare_decision_record : Act Prepared
  unfolding fresh_decision supersede_decision is_reusable latest_decision counted_cids decision_ref
  prepare_decision_record w = elim (latest_decision did proposal_rkey w.rows) [
    | none ↦ (some (fresh_decision none), w)
    | some row ↦
        if is_reusable proposal_rkey outcome (counted_cids tally) row
        then (some (record { ref = decision_ref did row; ops = [] }), w)
        else supersede_decision (decision_ref did row) w
  ]
