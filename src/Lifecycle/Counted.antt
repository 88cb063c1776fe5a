-- ===== src/Lifecycle/Counted.antt =====
-- What the counting of a vote and its resolution leave of a proposal's fields, and of the store.
use openfederation_pds.Base.{
  ◌≡◌, refl, ◌∙◌, inl, inr, Bool-cases, Bool, true, false, Option, none, some, List, [], ◌∷◌,
  String, arith, if◌then◌else◌, str_eq,
}
use openfederation_pds.Json.{Json, Num, str, obj, Fields, lookup, lookup-put}
use openfederation_pds.Dates.{Dates}
use openfederation_pds.Rules.{
  VoteChoice, for, against, Outcome, QuorumRule, quorum_rule, uses_vote_record_evidence,
}
use openfederation_pds.Index.{Row, Repo, World, pure, audit_log}
use openfederation_pds.Records.{audit_unrecordable_vote, audit_missing_vote_record}
use openfederation_pds.Timelock.Objections.{ordinary_quorum}
use openfederation_pds.Lifecycle.{IsQuiet, IsQuiet-then}
use openfederation_pds.Resolution.{RecordTally, tally_from_vote_records}
use openfederation_pds.Resolution.Decision.{DecisionRef, outcome_text, audit_deferred_resolution}
use openfederation_pds.Resolution.Prepare.{prepare_decision_record, supersede_decision}
use openfederation_pds.Voting.Counting.{
  side_key, add_name, Counted, count_delegator, count_delegations, count_votes, is_delegation,
  delegator_of,
}
use openfederation_pds.Voting.Resolving.{
  bar_or, model_name, decide_round, frozen_bar, Effect, with_decision, with_carried, with_window,
  with_applied, resolved_fields, audit_deferral, prepare, verdict_of,
}

-- A field that the caches of a vote are not.
abbrev pub IsUncounted : String → Type 0
IsUncounted key = (str_eq "votesFor" key ≡ false) × (str_eq "votesAgainst" key ≡ false)

lookup-add_name :
    (key : String) (vote : VoteChoice) (did : String) (p : Fields)
    → IsUncounted key
    → lookup key (add_name vote did p) ≡ lookup key p
unfolding add_name side_key
lookup-add_name key for did p (h, h2) = rw (lookup-put key "votesFor", h) refl
lookup-add_name key against did p (h, h2) = rw (lookup-put key "votesAgainst", h2) refl

module _ (check : String → Option Bool) (evidence : Bool) (did rkey proposal_cid voter : String)
    (vote : VoteChoice) (key : String) (h : IsUncounted key) where
  lookup-count_delegator :
      (row : Row) (o : Option String) (c : Counted) (w : World)
      → lookup key
          (count_delegator check evidence did rkey proposal_cid voter vote row o c w).0.proposal
        ≡ lookup key c.proposal
  unfolding count_delegator
  lookup-count_delegator row none c w = refl
  lookup-count_delegator row (some delegator) c w =
      ground (arith, lookup-add_name key vote delegator c.proposal h)

  rows-count_delegator :
      (row : Row) (o : Option String) (c : Counted) (w : World)
      → (count_delegator check evidence did rkey proposal_cid voter vote row o c w).1.rows ≡ w.rows
  unfolding count_delegator audit_unrecordable_vote audit_missing_vote_record audit_log
  rows-count_delegator row none c w = refl
  rows-count_delegator row (some delegator) c w = ground arith

  count_delegations-kept :
      (rows : List Row) (c : Counted) (w : World)
      → (lookup key
            (count_delegations check evidence did rkey proposal_cid voter vote rows c w).0.proposal
          ≡ lookup key c.proposal)
        × ((count_delegations check evidence did rkey proposal_cid voter vote rows c w).1.rows
            ≡ w.rows)
  unfolding count_delegations
  count_delegations-kept [] c w = (refl, refl)
  count_delegations-kept (row ∷ rows) c w =
      let o =
        if is_delegation check evidence did rkey proposal_cid voter vote row
        then delegator_of row
        else none in
      let mid = count_delegator check evidence did rkey proposal_cid voter vote row o c w in
      let (field, same) = count_delegations-kept rows mid.0 mid.1 in
      (field ∙ lookup-count_delegator row o c w, same ∙ rows-count_delegator row o c w)

  -- Counting a vote changes the caches alone, and nothing in the store.
  pub count_votes-kept :
      (rows : List Row) (p : Fields) (w : World)
      → (lookup key
            (count_votes check evidence did rkey proposal_cid voter vote rows p w).0.proposal
          ≡ lookup key p)
        × ((count_votes check evidence did rkey proposal_cid voter vote rows p w).1.rows ≡ w.rows)
  unfolding count_votes
  count_votes-kept rows p w =
      let (field, same) = count_delegations-kept rows _ w in
      (field ∙ lookup-add_name key vote voter p h, same)

lookup-with_applied :
    (key : String) (in_round : Bool) (now : String) (eff : Effect) (p : Fields)
    → str_eq "appliedAt" key ≡ false
    → lookup key (with_applied in_round now eff p) ≡ lookup key p
unfolding with_applied
lookup-with_applied key in_round now eff p h =
    ground (arith, lookup-put key "appliedAt" (str now) p)

lookup-with_window :
    (key : String) (window : Option String) (p : Fields)
    → str_eq "applyAt" key ≡ false
    → str_eq "status" key ≡ false
    → lookup key (with_window window p) ≡ lookup key p
unfolding with_window
lookup-with_window key none p h h2 = refl
lookup-with_window key (some apply_at) p h h2 =
    rw (lookup-put key "applyAt", h) (rw (lookup-put key "status", h2) refl)

lookup-with_carried :
    (key : String) (in_round : Bool) (outcome : Outcome) (p : Fields)
    → str_eq "overrideOutcome" key ≡ false
    → lookup key (with_carried in_round outcome p) ≡ lookup key p
unfolding with_carried
lookup-with_carried key in_round outcome p h =
    ground (arith, lookup-put key "overrideOutcome" (str "carried") p)

lookup-with_decision :
    (key : String) (decision : Option DecisionRef) (p : Fields)
    → str_eq "decision" key ≡ false
    → lookup key (with_decision decision p) ≡ lookup key p
unfolding with_decision
lookup-with_decision key none p h = refl
lookup-with_decision key (some d) p h = rw (lookup-put key "decision", h) refl

-- The status that a resolution without a window writes.
pub status-resolved_fields :
    (in_round : Bool) (outcome : Outcome) (decision : Option DecisionRef) (eff : Effect)
    (now : String) (p : Fields)
    → lookup "status" (resolved_fields in_round outcome decision none eff now p)
      ≡ str (outcome_text outcome)
unfolding resolved_fields with_window
status-resolved_fields in_round outcome decision eff now p =
    lookup-with_applied "status" in_round now eff _ refl
    ∙ (lookup-with_carried "status" in_round outcome _ refl
        ∙ (lookup-with_decision "status" decision _ refl ∙ simp lookup-put refl))

-- The fields that a resolution does not write.
abbrev pub IsUnresolved : String → Type 0
IsUnresolved key =
    (str_eq "status" key ≡ false)
    × (str_eq "resolvedAt" key ≡ false)
    × (str_eq "decision" key ≡ false)
    × (str_eq "overrideOutcome" key ≡ false)
    × (str_eq "applyAt" key ≡ false)
    × (str_eq "appliedAt" key ≡ false)

pub lookup-resolved_fields :
    (key : String) (in_round : Bool) (outcome : Outcome) (decision : Option DecisionRef)
    (window : Option String) (eff : Effect) (now : String) (p : Fields)
    → IsUnresolved key
    → lookup key (resolved_fields in_round outcome decision window eff now p) ≡ lookup key p
unfolding resolved_fields
lookup-resolved_fields key in_round outcome decision window eff now p (h1, h2, h3, h4, h5, h6) =
    lookup-with_applied key in_round now eff _ h6
    ∙ (lookup-with_window key window _ h5 h1
        ∙ (lookup-with_carried key in_round outcome _ h4
            ∙ (lookup-with_decision key decision _ h3
                ∙ rw (lookup-put key "resolvedAt", h2) (rw (lookup-put key "status", h1) refl))))

IsQuiet-prepare_decision_record :
    (repo : Repo) (did rkey proposal_cid : String) (proposal : Json) (tally : RecordTally)
    (rule : QuorumRule) (outcome : Outcome) (tid now : String)
    → IsQuiet
        (prepare_decision_record repo did rkey proposal_cid proposal tally rule outcome tid now)
unfolding prepare_decision_record supersede_decision audit_log
IsQuiet-prepare_decision_record repo did rkey proposal_cid proposal tally rule outcome tid now w =
    ground arith

module _ (dates : Dates) (repo : Repo) (show : Num → String) (did rkey now : String) where
  IsQuiet-prepare :
      (proposal_cid : String) (p : Fields) (tally : RecordTally) (rule : QuorumRule) (tid : String)
      (deferred : Bool) (o : Option Outcome)
      → IsQuiet (prepare dates repo show did rkey now proposal_cid p tally rule tid deferred o)
  unfolding prepare
  IsQuiet-prepare proposal_cid p tally rule tid deferred none w = refl
  IsQuiet-prepare proposal_cid p tally rule tid deferred (some outcome) w =
      IsQuiet-then
        (prepare_decision_record repo did rkey proposal_cid (obj p) tally rule outcome tid now)
        (λ prepared. pure (record {
          outcome = some outcome;
          deferred = deferred;
          decision = some prepared.ref;
          ops = prepared.ops;
        }))
        (IsQuiet-prepare_decision_record repo did rkey proposal_cid (obj p) tally rule outcome tid
          now)
        (λ prepared w. refl) w

  IsQuiet-audit_deferral :
      (deferred : Bool) → IsQuiet (audit_deferral dates repo show did rkey now deferred)
  unfolding audit_deferral audit_deferred_resolution audit_log
  IsQuiet-audit_deferral true w = refl
  IsQuiet-audit_deferral false w = refl

  -- What a vote decides is found without a write.
  pub IsQuiet-verdict_of :
      (in_round : Bool) (settings : Json) (proposal_cid : String) (p : Fields) (tid : String)
      → IsQuiet (verdict_of dates repo show did rkey now in_round settings proposal_cid p tid)
  unfolding verdict_of
  IsQuiet-verdict_of in_round settings proposal_cid p tid w =
      let bar = frozen_bar in_round p in
      let quorum = ordinary_quorum settings in
      let tally = tally_from_vote_records w.rows did rkey (obj p) proposal_cid in
      let decided = decide_round bar quorum tally p in
      elim (Bool-cases (uses_vote_record_evidence (obj p))) [
        | inl e ↦ rw e (
            IsQuiet-then (audit_deferral dates repo show did rkey now decided.deferred)
              (λ _.
                prepare dates repo show did rkey now proposal_cid p tally
                  (quorum_rule show (model_name dates repo show did rkey now settings)
                    (bar_or dates repo show did rkey now bar quorum))
                  tid decided.deferred decided.outcome)
              (IsQuiet-audit_deferral decided.deferred)
              (λ _. IsQuiet-prepare proposal_cid p tally _ tid decided.deferred decided.outcome) w)
        | inr e ↦ rw e refl
      ]
