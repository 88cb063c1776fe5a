-- ===== src/Resolution/Decision.antt =====
-- The reuse of a decision that is already written, and the record of a deferred resolution:
-- `citedVoteCids`, the first half of `prepareDecisionRecord`, and `auditDeferredResolution`.
use openfederation_pds.Base.{
  ◌≡◌, Bool, true, ◌&&◌, Option, none, some, List, [], ◌∷◌, ◌++◌, String, ◌<>◌, str_eq, text_lt,
  if◌then◌else◌, length, includes, ◌==◌, arith,
}
use openfederation_pds.Json.{Json, str, get, as_str, is_str, is_str_iff, as_array}
use openfederation_pds.Rules.{decision_collection, Outcome, approved, rejected}
use openfederation_pds.Index.{Row, Act, audit_log}
use openfederation_pds.Resolution.{CountedVote, RecordTally}

pub record DecisionRef : Type 0 where
  pub uri : String
  pub cid : String
  pub rkey : String

unfoldable pub outcome_text : Outcome → String
outcome_text approved = "approved"
outcome_text rejected = "rejected"

-- A set of names from a list.
unfoldable pub distinct_names : List String → List String
distinct_names [] = []
distinct_names (x ∷ xs) = let rest = distinct_names xs in if includes x rest then rest else x ∷ rest

unfoldable pub cited_cids : List Json → List String
cited_cids [] = []
cited_cids (vote ∷ votes) =
    let rest = cited_cids votes in
    elim (as_str (get "cid" (get "record" vote))) [ some cid ↦ cid ∷ rest | none ↦ rest ]

unfoldable pub cited_vote_cids : Json → List String
unfolding cited_cids distinct_names
cited_vote_cids rec = distinct_names (cited_cids (as_array (get "votes" rec)))

unfoldable pub vote_cids : List CountedVote → List String
vote_cids [] = []
vote_cids (v ∷ vs) = v.cid ∷ vote_cids vs

unfoldable pub counted_cids : RecordTally → List String
unfolding vote_cids distinct_names
counted_cids tally = distinct_names (vote_cids (tally.votes_for ++ tally.votes_against))

unfoldable pub all_included : List String → List String → Bool
all_included [] ys = true
all_included (x ∷ xs) ys = includes x ys && all_included xs ys

unfoldable pub same_evidence : List String → List String → Bool
unfolding all_included
same_evidence cited counted = length cited == length counted && all_included counted cited

unfoldable pub is_decision_on : String → String → Row → Bool
is_decision_on did proposal_rkey row =
    str_eq row.did did
    && str_eq row.collection decision_collection
    && is_str (get "proposalRkey" row.rec) proposal_rkey

unfoldable pub later_row : Row → Option Row → Row
later_row row none = row
later_row row (some other) = if text_lt row.rkey other.rkey then other else row

-- `ORDER BY rkey DESC LIMIT 1`
unfoldable pub latest_decision : String → String → List Row → Option Row
unfolding is_decision_on later_row
latest_decision did proposal_rkey [] = none
latest_decision did proposal_rkey (row ∷ rows) =
    let rest = latest_decision did proposal_rkey rows in
    if is_decision_on did proposal_rkey row then some (later_row row rest) else rest

unfoldable pub decision_ref : String → Row → DecisionRef
decision_ref did row = record {
  uri = "at://" <> (did <> ("/" <> (decision_collection <> ("/" <> row.rkey))));
  cid = row.cid;
  rkey = row.rkey;
}

-- Whether the decision of a row is of this proposal and this outcome, and cites these votes.
unfoldable pub is_reusable : String → Outcome → List String → Row → Bool
unfolding cited_vote_cids same_evidence outcome_text
is_reusable proposal_rkey outcome counted row =
    is_str (get "proposalRkey" row.rec) proposal_rkey
    && is_str (get "outcome" row.rec) (outcome_text outcome)
    && same_evidence (cited_vote_cids row.rec) counted

unfoldable pub audit_deferred_resolution : String → String → Act (Unit {0})
audit_deferred_resolution community_did proposal_rkey =
    audit_log "community.proposal.resolution.deferred" community_did proposal_rkey

-- A decision that may be used again states the outcome and passes for the same evidence.
pub reusable_parts :
    (proposal_rkey : String) (outcome : Outcome) (counted : List String) (row : Row)
    → is_reusable proposal_rkey outcome counted row ≡ true
    → (get "outcome" row.rec ≡ str (outcome_text outcome))
      × (same_evidence (cited_vote_cids row.rec) counted ≡ true)
unfolding is_reusable
reusable_parts proposal_rkey outcome counted row h =
    ground (arith, is_str_iff (get "outcome" row.rec) (outcome_text outcome))
