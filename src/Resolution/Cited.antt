-- ===== src/Resolution/Cited.antt =====
-- What the decision that a resolution cites says: the outcome, and the votes that count.
use openfederation_pds.Base.{◌≡◌, ◌⊎◌, some, List, [], ◌∷◌, ◌++◌, String, includes}
use openfederation_pds.Json.{Json, str, get, as_array}
use openfederation_pds.Rules.{Outcome, QuorumRule, decision_collection}
use openfederation_pds.Index.{Row, Repo, World, write}
use openfederation_pds.Resolution.{RecordTally}
use openfederation_pds.Resolution.Decision.{
  outcome_text, cited_cids, vote_cids, latest_decision, decision_ref,
}
use openfederation_pds.Resolution.Prepare.{Prepared, prepare_decision_record}

-- A record states an outcome and cites the votes of a tally, whatever else it says: a content identifier is
-- cited in it exactly when it is that of a vote that counts.
pub record IsDecisionOf (rec : Json) (tally : RecordTally) (decided : Outcome) : Type 0 where
  pub outcome : get "outcome" rec ≡ str (outcome_text decided)
  pub cites :
      (cid : String)
      → includes cid (cited_cids (as_array (get "votes" rec)))
        ≡ includes cid (vote_cids (tally.votes_for ++ tally.votes_against))

-- The decision that a resolution cites: the latest one of the proposal in the store, with nothing to
-- write, or one that is to be written under the address and the content identifier that are cited.
abbrev pub IsRecordOf : Repo → String → String → List Row → Prepared → Json → Type 0
IsRecordOf repo did proposal_rkey rows p rec =
    ((p.ops ≡ [])
      × ((row : Row) × (latest_decision did proposal_rkey rows ≡ some row)
          × (p.ref ≡ decision_ref did row)
          × (row.rec ≡ rec)))
    ⊎ ((p.ops ≡ write decision_collection p.ref.rkey rec ∷ []) × (p.ref.cid ≡ repo.cid_for rec))

module _ (repo : Repo) (did proposal_rkey proposal_cid : String) (proposal : Json)
    (tally : RecordTally) (quorum : QuorumRule) (outcome : Outcome) (rkey now : String) where
  abbrev IsCited : List Row → Prepared → Type 0
  IsCited rows p =
      (rec : Json) × IsRecordOf repo did proposal_rkey rows p rec × IsDecisionOf rec tally outcome

  abbrev IsPrepared : World → Type 0
  IsPrepared w =
      (p : Prepared) × (w' : World) × (prepare_decision_record repo did proposal_rkey proposal_cid
          proposal tally quorum outcome rkey now w
        ≡ (some p, w'))
      × IsCited w.rows p
