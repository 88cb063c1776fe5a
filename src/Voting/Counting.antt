-- ===== src/Voting/Counting.antt =====
-- The names that a vote adds to the cache of a proposal: the voter's, and those of the members who
-- delegated to the voter. Both caches are arrays of texts, as `createProposal` writes them.
use openfederation_pds.Base.{
  Bool, true, false, ◌&&◌, ◌||◌, Option, none, some, List, [], ◌∷◌, ◌++◌, String, ◌<>◌, str_eq,
  if◌then◌else◌, includes,
}
use openfederation_pds.Json.{
  Fields, get, lookup, put, is_str, as_str, as_array, strings, of_strings,
}
use openfederation_pds.Rules.{VoteChoice, for, against}
use openfederation_pds.Index.{Row, World}
use openfederation_pds.Records.{VoteRecordInput, audit_unrecordable_vote}

abbrev pub delegation_collection : String
delegation_collection = "net.openfederation.community.delegation"

unfoldable pub side_key : VoteChoice → String
side_key for = "votesFor"
side_key against = "votesAgainst"

unfoldable pub names : String → Fields → List String
names key proposal = strings (as_array (lookup key proposal))

-- `votesFor.includes(did) || votesAgainst.includes(did)`
unfoldable pub has_voted : String → Fields → Bool
unfolding names
has_voted did proposal =
    includes did (names "votesFor" proposal) || includes did (names "votesAgainst" proposal)

unfoldable pub add_name : VoteChoice → String → Fields → Fields
unfolding names side_key
add_name vote did proposal =
    put (side_key vote) (of_strings (names (side_key vote) proposal ++ did ∷ [])) proposal

-- The proposal with the names that are counted, and the records that are to be written.
pub record Counted : Type 0 where
  pub proposal : Fields
  pub inputs : List VoteRecordInput

-- `canRecordVote` of a delegator: a check that fails is no answer, and the vote is kept.
unfoldable pub can_count : Bool → Option Bool → Bool
can_count false able = true
can_count true none = true
can_count true (some able) = able

-- The delegator that a row names, if it is a text that is not empty.
unfoldable pub delegator_of : Row → Option String
delegator_of row = elim (as_str (get "delegatorDid" row.rec)) [
  | none ↦ none
  | some delegator ↦ if str_eq delegator "" then none else some delegator
]

module _ (check : String → Option Bool) (evidence : Bool) (did rkey proposal_cid voter : String)
    (vote : VoteChoice) where
  unfoldable pub delegated_vote : Row → String → VoteRecordInput
  delegated_vote row delegator = record {
    voter_did = delegator;
    community_did = did;
    proposal_rkey = rkey;
    proposal_cid = proposal_cid;
    vote = vote;
    cast_by = some voter;
    delegation = some (record {
      uri = "at://" <> (did <> ("/" <> (delegation_collection <> ("/" <> row.rkey))));
      cid = row.cid;
    });
  }

  -- The body of the loop for a delegator.
  unfoldable pub count_delegator : Row → Option String → Counted → World → Counted × World
  unfolding has_voted can_count add_name delegated_vote
  count_delegator row none counted w = (counted, w)
  count_delegator row (some delegator) counted w =
      let (_, audited) = audit_unrecordable_vote (delegated_vote row delegator) w in
      if has_voted delegator counted.proposal
      then (counted, w)
      else if can_count evidence (check delegator)
      then (
        record {
          proposal = add_name vote delegator counted.proposal;
          inputs = counted.inputs ++ delegated_vote row delegator ∷ [];
        },
        w,
      )
      else (counted, audited)

  unfoldable pub is_delegation : Row → Bool
  is_delegation row =
      str_eq row.did did
      && str_eq row.collection delegation_collection
      && is_str (get "delegateDid" row.rec) voter

  unfoldable pub count_delegations : List Row → Counted → World → Counted × World
  unfolding count_delegator is_delegation delegator_of
  count_delegations [] counted w = (counted, w)
  count_delegations (row ∷ rows) counted w =
      let (counted', w') =
        count_delegator row (if is_delegation row then delegator_of row else none) counted w in
      count_delegations rows counted' w'

  -- The voter's own name and record first.
  unfoldable pub count_votes : List Row → Fields → World → Counted × World
  unfolding count_delegations add_name
  count_votes rows proposal w =
      count_delegations rows
        (record {
          proposal = add_name vote voter proposal;
          inputs =
              record {
                voter_did = voter;
                community_did = did;
                proposal_rkey = rkey;
                proposal_cid = proposal_cid;
                vote = vote;
                cast_by = none;
                delegation = none;
              }
              ∷ [];
        })
        w
