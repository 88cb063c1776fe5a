-- ===== src/Voting/Resolving.antt =====
-- What a vote decides and what the decision does: the second half of `voteOnProposal`.
use openfederation_pds.Base.{
  ℕ, Bool, true, false, Option, none, some, List, [], ◌∷◌, ◌++◌, String, if◌then◌else◌, length,
}
use openfederation_pds.Json.{
  Num, Json, str, obj, Fields, object, get, lookup, put, as_array, as_num, as_str,
}
use openfederation_pds.Dates.{Dates}
use openfederation_pds.Settings.{SettingsProblem}
use openfederation_pds.Rules.{
  Outcome, approved, rejected, decide_outcome, decide_override, QuorumRule, quorum_rule,
  uses_vote_record_evidence,
}
use openfederation_pds.Index.{Row, Repo, Act, ◌>>=◌, ◌>>◌, pure, Op, apply_writes, audit_log}
use openfederation_pds.Resolution.{
  RecordTally, RecordDecision, tally_from_vote_records, agreed_decision, decide_from_records,
}
use openfederation_pds.Resolution.Decision.{DecisionRef, outcome_text, audit_deferred_resolution}
use openfederation_pds.Resolution.Prepare.{prepare_decision_record}
use openfederation_pds.Timelock.Merge.{ChangeOps, change, unapplicable_change, proposed_change_ops}
use openfederation_pds.Timelock.Objections.{pending_status, ordinary_quorum}
use openfederation_pds.Timelock.Apply.{
  proposal_write_op, put_proposal_record, pending_application_state,
}

-- The frozen bar of an override round, if the proposal states a number.
unfoldable pub frozen_bar : Bool → Fields → Option Num
frozen_bar true proposal = as_num (lookup "overrideQuorum" proposal)
frozen_bar false proposal = none

unfoldable pub decide_votes : Option Num → Num → ℕ → ℕ → Option Outcome
decide_votes none quorum votes_for votes_against = decide_outcome votes_for votes_against quorum
decide_votes (some bar) quorum votes_for votes_against = decide_override votes_for bar

unfoldable pub decide_round : Option Num → Num → RecordTally → Fields → RecordDecision
decide_round none quorum tally proposal = decide_from_records tally (obj proposal) quorum
decide_round (some bar) quorum tally proposal =
    agreed_decision (decide_override (length tally.votes_for) bar)
      (decide_override (length (as_array (lookup "votesFor" proposal))) bar)

-- What the votes decide, the decision that is cited, and its write.
pub record Verdict : Type 0 where
  pub outcome : Option Outcome
  pub deferred : Bool
  pub decision : Option DecisionRef
  pub ops : List Op

-- What the change of a resolution is: none where nothing is to be applied now.
pub data Effect : Type 0 where
  no_effect : Effect
  effect : List Op → Effect
  refused_effect : SettingsProblem → Effect

pub record Recorded : Type 0 where
  pub status : Json
  pub is_applied : Bool
  pub apply_at : Option String
  pub is_deferred : Bool

unfoldable pub decision_json_ref : DecisionRef → Json
decision_json_ref d =
    obj (object (("uri", str d.uri) ∷ ("cid", str d.cid) ∷ ("rkey", str d.rkey) ∷ []))

unfoldable pub with_decision : Option DecisionRef → Fields → Fields
unfolding decision_json_ref
with_decision none p = p
with_decision (some d) p = put "decision" (decision_json_ref d) p

-- The window of an approval that rests on a decision: `none` where its end is no valid date.
unfoldable pub window_of :
    Dates → Json → Bool → Outcome → Option DecisionRef → String → Option (Option String)
window_of dates settings false approved (some d) now = pending_application_state dates settings now
window_of dates settings _ _ _ now = some none

unfoldable pub with_carried : Bool → Outcome → Fields → Fields
with_carried true approved p = put "overrideOutcome" (str "carried") p
with_carried _ _ p = p

unfoldable pub with_window : Option String → Fields → Fields
with_window none p = p
with_window (some apply_at) p = put "applyAt" (str apply_at) (put "status" (str pending_status) p)

unfoldable pub with_applied : Bool → String → Effect → Fields → Fields
with_applied true now (effect ops) p = put "appliedAt" (str now) p
with_applied _ now _ p = p

unfoldable pub effect_of_ops : ChangeOps → Effect
effect_of_ops (change ops) = effect ops
effect_of_ops (unapplicable_change problem) = refused_effect problem

unfoldable pub effect_of : List Row → String → Json → Outcome → Option String → Effect
unfolding effect_of_ops
effect_of rows did proposal approved none = effect_of_ops (proposed_change_ops rows did proposal)
effect_of rows did proposal _ _ = no_effect

unfoldable pub effect_ops : Effect → List Op
effect_ops (effect ops) = ops
effect_ops _ = []

unfoldable pub is_effect : Effect → Bool
is_effect (effect ops) = true
is_effect _ = false

-- The fields of the proposal that a resolution writes.
unfoldable pub resolved_fields :
    Bool → Outcome → Option DecisionRef → Option String → Effect → String → Fields → Fields
unfolding with_decision with_carried with_window with_applied
resolved_fields in_round outcome decision window eff now p = with_applied in_round now eff (
    with_window window (
      with_carried in_round outcome (
        with_decision decision
          (put "resolvedAt" (str now) (put "status" (str (outcome_text outcome)) p)))))

module _ (dates : Dates) (repo : Repo) (show : Num → String) (did rkey now : String) where
  unfoldable pub audit_effect : Effect → Act (Unit {0})
  audit_effect (refused_effect problem) = audit_log "community.proposal.applyFailed" did rkey
  audit_effect _ = pure tt

  unfoldable pub audit_outcome : Outcome → Option String → Effect → Act (Unit {0})
  unfolding audit_effect
  audit_outcome approved (some apply_at) eff =
      audit_log "community.proposal.pendingApplication" did rkey
  audit_outcome approved none eff = do
    audit_effect eff
    audit_log "community.proposal.approve" did rkey
  audit_outcome rejected _ eff = audit_log "community.proposal.reject" did rkey

  unfoldable pub audit_carried : Bool → Outcome → Act (Unit {0})
  audit_carried true approved = audit_log "community.proposal.overrideCarried" did rkey
  audit_carried _ _ = pure tt

  -- One commit for the decision, the proposal and the change.
  unfoldable pub commit_resolution :
      Bool → Outcome → Verdict → Option String → Effect → Fields → Act Recorded
  unfolding audit_outcome audit_carried effect_ops is_effect
  commit_resolution in_round outcome verdict window eff p w =
      (do
        apply_writes repo did (verdict.ops ++ proposal_write_op w.rows did rkey p ∷ effect_ops eff)
        audit_carried in_round outcome
        audit_outcome outcome window eff
        pure (record {
          status = lookup "status" p;
          is_applied = is_effect eff;
          apply_at = window;
          is_deferred = verdict.deferred;
        }))
        w

  -- `proposal` is the record as it was read, `p` the one with the names counted.
  unfoldable pub close_with :
      Bool → Fields → Fields → Outcome → Verdict → Option (Option String) → Act Recorded
  unfolding commit_resolution effect_of resolved_fields
  close_with in_round proposal p outcome verdict none w = (none, w)
  close_with in_round proposal p outcome verdict (some window) w =
      let eff = effect_of w.rows did (obj proposal) outcome window in
      commit_resolution in_round outcome verdict window eff
        (resolved_fields in_round outcome verdict.decision window eff now p) w

  unfoldable pub keep_open : Verdict → Fields → Act Recorded
  keep_open verdict p = do
    put_proposal_record repo did rkey p
    pure (record {
      status = lookup "status" p;
      is_applied = false;
      apply_at = none;
      is_deferred = verdict.deferred;
    })

  unfoldable pub settle_verdict :
      Bool → Json → Fields → Fields → Verdict → Option Outcome → Act Recorded
  unfolding close_with keep_open window_of
  settle_verdict in_round settings proposal p verdict none = keep_open verdict p
  settle_verdict in_round settings proposal p verdict (some outcome) =
      close_with in_round proposal p outcome verdict
        (window_of dates settings in_round outcome verdict.decision now)

  unfoldable pub audit_deferral : Bool → Act (Unit {0})
  audit_deferral true = audit_deferred_resolution did rkey
  audit_deferral false = pure tt

  -- The decision record of an outcome, prepared and not written.
  unfoldable pub prepare :
      String → Fields → RecordTally → QuorumRule → String → Bool → Option Outcome → Act Verdict
  prepare proposal_cid p tally rule tid deferred none =
      pure (record { outcome = none; deferred = deferred; decision = none; ops = [] })
  prepare proposal_cid p tally rule tid deferred (some outcome) =
      prepare_decision_record repo did rkey proposal_cid (obj p) tally rule outcome tid now
      >>= λ prepared. pure (record {
        outcome = some outcome;
        deferred = deferred;
        decision = some prepared.ref;
        ops = prepared.ops;
      })

  -- `settings?.governanceModel ?? 'simple-majority'`, for a model that is a text.
  unfoldable pub model_name : Json → String
  model_name settings = elim (as_str (get "governanceModel" settings)) [
    | none ↦ "simple-majority"
    | some model ↦ model
  ]

  unfoldable pub bar_or : Option Num → Num → Num
  bar_or none quorum = quorum
  bar_or (some bar) quorum = bar

  unfoldable pub verdict_of : Bool → Json → String → Fields → String → Act Verdict
  unfolding decide_round frozen_bar audit_deferral prepare bar_or model_name decide_votes
  verdict_of in_round settings proposal_cid p tid w =
      let bar = frozen_bar in_round p in
      let quorum = ordinary_quorum settings in
      let tally = tally_from_vote_records w.rows did rkey (obj p) proposal_cid in
      let decided = decide_round bar quorum tally p in
      if uses_vote_record_evidence (obj p)
      then (audit_deferral decided.deferred
            >> prepare proposal_cid p tally
                (quorum_rule show (model_name settings) (bar_or bar quorum)) tid decided.deferred
                decided.outcome)
          w
      else (
        some (record {
          outcome =
              decide_votes bar quorum (length (as_array (lookup "votesFor" p)))
                (length (as_array (lookup "votesAgainst" p)));
          deferred = false;
          decision = none;
          ops = [];
        }),
        w,
      )
