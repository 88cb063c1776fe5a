-- ===== src/Lifecycle/Outside.antt =====
-- What a vote leaves of the records outside the proposals, the votes and the decisions.
use openfederation_pds.Base.{
  ◌≡◌, refl, sym, ap, ◌∙◌, subst, inl, inr, Bool-cases, Option-cases, Bool, false, Option, none,
  some, List, [], ◌∷◌, ◌++◌, String, str_eq,
}
use openfederation_pds.Json.{Json, Num, obj, Fields, lookup}
use openfederation_pds.Dates.{Dates}
use openfederation_pds.Rules.{
  Outcome, QuorumRule, proposal_collection, vote_collection, decision_collection,
}
use openfederation_pds.Index.{
  Row, Repo, World, ◌>>=◌, pure, find_row, Op, write, apply_writes, put_record, audit_log,
}
use openfederation_pds.Index.Laws.{LeavesAlone, apply_writes-rows, find_row-apply_ops_of}
use openfederation_pds.Records.{
  VoteRecordInput, collect_eligibility_evidence, vote_record_json, write_vote_record,
  write_vote_records, written_or_audited, audit_missing_vote_record,
}
use openfederation_pds.Resolution.{RecordTally}
use openfederation_pds.Resolution.Decision.{latest_decision, is_reusable, counted_cids}
use openfederation_pds.Resolution.Prepare.{
  Prepared, prepare_decision_record, fresh_decision, supersede_decision,
}
use openfederation_pds.Timelock.Apply.{put_proposal_record, proposal_write_op}
use openfederation_pds.Voting.Resolving.{
  Verdict, Recorded, Effect, no_effect, effect, refused_effect, effect_of, effect_ops, is_effect,
  window_of, audit_carried, audit_outcome, commit_resolution, close_with, keep_open, settle_verdict,
  prepare,
}
use openfederation_pds.Lifecycle.{bind_some}
use openfederation_pds.Lifecycle.Resolved.{IsQuiet-audit_carried, IsQuiet-audit_outcome}

-- A record is in the store after as it was before.
pub record IsUntouched (d collection key : String) (rows rows' : List Row) : Type 0 where
  pub same : find_row d collection key rows' ≡ find_row d collection key rows

-- A collection that is not of proposals, of votes or of decisions.
pub record IsOutside (collection : String) : Type 0 where
  pub proposals : str_eq proposal_collection collection ≡ false
  pub votes : str_eq vote_collection collection ≡ false
  pub decisions : str_eq decision_collection collection ≡ false

pub answer-eq :
    {A : Type 0} (x y : A) (w w' : World)
    → ◌≡◌ {A = Option A × World} (some x, w) (some y, w')
    → x ≡ y
answer-eq x y w w' h = cc

LeavesAlone-append :
    (collection key : String) (a b : List Op)
    → LeavesAlone collection key a
    → LeavesAlone collection key b
    → LeavesAlone collection key (a ++ b)
LeavesAlone-append collection key [] b h k = k
LeavesAlone-append collection key (op ∷ a) b (h, hs) k =
    (h, LeavesAlone-append collection key a b hs k)

module _ (repo : Repo) (d collection key : String) (out : IsOutside collection) where
  pub IsUntouched-writes :
      (owner : String) (ops : List Op) (w : World)
      → LeavesAlone collection key ops
      → IsUntouched d collection key w.rows (apply_writes repo owner ops w).1.rows
  IsUntouched-writes owner ops w alone = elim (apply_writes-rows repo owner ops w) [
    | inl same ↦ rw same (record { same = refl })
    | inr done ↦ record {
      same = find_row-apply_ops_of repo owner d collection key ops _ _ alone done;
    }
  ]

  pub IsUntouched-chain :
      (rows rows1 rows2 : List Row)
      → IsUntouched d collection key rows rows1
      → IsUntouched d collection key rows1 rows2
      → IsUntouched d collection key rows rows2
  IsUntouched-chain rows rows1 rows2 a b = record { same = b.same ∙ a.same }

  proposal_alone :
      (rows : List Row) (did rkey : String) (q : Fields) (ops : List Op)
      → LeavesAlone collection key ops
      → LeavesAlone collection key (proposal_write_op rows did rkey q ∷ ops)
  unfolding proposal_write_op
  proposal_alone rows did rkey q ops alone = (rw out.proposals refl, alone)

  IsUntouched-written :
      (input : VoteRecordInput) (rkey : String) (done : Option (Unit {0})) (w : World)
      → (written_or_audited input rkey done w).1.rows ≡ w.rows
  unfolding written_or_audited audit_missing_vote_record audit_log
  IsUntouched-written input rkey none w = refl
  IsUntouched-written input rkey (some u) w = refl

  IsUntouched-write_vote_record :
      (unique : String → String → Option String) (input : VoteRecordInput) (rkey at : String)
      (w : World)
      → IsUntouched d collection key w.rows (write_vote_record repo unique input rkey at w).1.rows
  unfolding write_vote_record put_record
  IsUntouched-write_vote_record unique input rkey at w =
      let rec =
        vote_record_json input
          (collect_eligibility_evidence unique w.rows input.community_did input.voter_did) at in
      elim (Bool-cases (repo.has_repo input.voter_did)) [
        | inl e ↦ rw e (
            rw (IsUntouched-written input rkey _ _) (
              IsUntouched-writes input.voter_did (write vote_collection rkey rec ∷ []) w
                (rw out.votes refl, tt)))
        | inr e ↦ rw e (rw (IsUntouched-written input rkey none w) (record { same = refl }))
      ]

  pub IsUntouched-write_vote_records :
      (unique : String → String → Option String) (inputs : List (VoteRecordInput × String × String))
      (w : World)
      → IsUntouched d collection key w.rows (write_vote_records repo unique inputs w).1.rows
  unfolding write_vote_records
  IsUntouched-write_vote_records unique [] w = record { same = refl }
  IsUntouched-write_vote_records unique ((input, rkey, at) ∷ inputs) w =
      IsUntouched-chain _ _ _ (IsUntouched-write_vote_record unique input rkey at w)
        (IsUntouched-write_vote_records unique inputs _)

  of_answer :
      (x p : Prepared) (w w' : World)
      → ◌≡◌ {A = Option Prepared × World} (some x, w) (some p, w')
      → LeavesAlone collection key x.ops
      → LeavesAlone collection key p.ops
  of_answer x p w w' h alone =
      subst (λ y. LeavesAlone collection key y.ops) (answer-eq x p w w' h) alone

  prepared_alone :
      (did rkey proposal_cid : String) (proposal : Json) (tally : RecordTally) (rule : QuorumRule)
      (outcome : Outcome) (tid now : String) (w w' : World) (p : Prepared)
      → prepare_decision_record repo did rkey proposal_cid proposal tally rule outcome tid now w
        ≡ (some p, w')
      → LeavesAlone collection key p.ops
  unfolding prepare_decision_record supersede_decision fresh_decision audit_log
  prepared_alone did rkey proposal_cid proposal tally rule outcome tid now w w' p h =
      elim (Option-cases (latest_decision did rkey w.rows)) [
        | inl e ↦
            of_answer _ p _ w' (rw (e, prepare_decision_record) at h) (rw out.decisions refl, tt)
        | inr (row, e) ↦ elim (Bool-cases (is_reusable rkey outcome (counted_cids tally) row)) [
          | inl e2 ↦ of_answer _ p _ w' (rw e2 at (rw (e, prepare_decision_record) at h)) tt
          | inr e2 ↦
              of_answer _ p _ w' (rw e2 at (rw (e, prepare_decision_record) at h))
                (rw out.decisions refl, tt)
        ]
      ]

module _ (dates : Dates) (repo : Repo) (show : Num → String) (did rkey now : String)
    (d collection key : String) (out : IsOutside collection) where
  pub prepare_alone :
      (proposal_cid : String) (q : Fields) (tally : RecordTally) (rule : QuorumRule) (tid : String)
      (deferred : Bool) (o : Option Outcome) (w w' : World) (v : Verdict)
      → prepare dates repo show did rkey now proposal_cid q tally rule tid deferred o w
        ≡ (some v, w')
      → LeavesAlone collection key v.ops
  unfolding prepare
  prepare_alone proposal_cid q tally rule tid deferred none w w' v h =
      subst (λ ops. LeavesAlone collection key ops) (ap (λ x. x.ops) (answer-eq _ v w w' h)) tt
  prepare_alone proposal_cid q tally rule tid deferred (some outcome) w w' v h =
      let (p, w1, first, second) =
        bind_some
          (prepare_decision_record repo did rkey proposal_cid (obj q) tally rule outcome tid now)
          (λ prepared. pure (record {
            outcome = some outcome;
            deferred = deferred;
            decision = some prepared.ref;
            ops = prepared.ops;
          }))
          w w' v h in
      let same : p.ops ≡ v.ops = ap (λ x. x.ops) (answer-eq _ v w1 w' second) in
      subst (λ ops. LeavesAlone collection key ops) same
        (prepared_alone repo d collection key out did rkey proposal_cid (obj q) tally rule outcome
          tid now w w1 p first)

  -- The resolution of a vote that did not apply the change.
  commit_resolution-IsUntouched :
      (in_round : Bool) (outcome : Outcome) (verdict : Verdict) (window : Option String)
      (eff : Effect) (q : Fields) (w w' : World) (r : Recorded)
      → LeavesAlone collection key verdict.ops
      → commit_resolution dates repo show did rkey now in_round outcome verdict window eff q w
        ≡ (some r, w')
      → r.is_applied ≡ false
      → IsUntouched d collection key w.rows w'.rows
  unfolding commit_resolution
  commit_resolution-IsUntouched in_round outcome verdict window eff q w w' r alone h unapplied =
      let answer : Recorded = record {
        status = lookup "status" q;
        is_applied = is_effect eff;
        apply_at = window;
        is_deferred = verdict.deferred;
      } in
      let carried = audit_carried dates repo show did rkey now in_round outcome in
      let audited = audit_outcome dates repo show did rkey now outcome window eff in
      let (u, w1, done, second) =
        bind_some
          (apply_writes repo did
            (verdict.ops ++ proposal_write_op w.rows did rkey q ∷ effect_ops eff))
          (λ _. carried >>= λ _. audited >>= λ _. pure answer) w w' r h in
      let (u2, w2, ok2, third) =
        bind_some carried (λ _. audited >>= λ _. pure answer) w1 w' r second in
      let (u3, w3, ok3, fourth) = bind_some audited (λ _. pure answer) w2 w' r third in
      let unchanged : is_effect eff ≡ false =
        ap (λ x. x.is_applied) (answer-eq answer r w3 w' fourth) ∙ unapplied in
      let ops = verdict.ops ++ proposal_write_op w.rows did rkey q ∷ effect_ops eff in
      let written = IsUntouched-writes repo d collection key out did ops w (
        LeavesAlone-append collection key verdict.ops _ alone (
          proposal_alone repo d collection key out w.rows did rkey q (effect_ops eff)
            (no_ops eff unchanged))) in
      let first : (apply_writes repo did ops w).1.rows ≡ w1.rows = ap (λ x. x.1.rows) done in
      let later : w1.rows ≡ w'.rows =
        sym (IsQuiet-audit_carried dates repo show did rkey now 0 in_round outcome w1)
        ∙ (ap (λ x. x.1.rows) ok2
            ∙ (sym (IsQuiet-audit_outcome dates repo show did rkey now 0 outcome window eff w2)
                ∙ (ap (λ x. x.1.rows) ok3 ∙ ap (λ x. x.1.rows) fourth))) in
      subst (λ rows. IsUntouched d collection key w.rows rows) (first ∙ later) written
    where
      no_ops : (eff : Effect) → is_effect eff ≡ false → LeavesAlone collection key (effect_ops eff)
      no_ops no_effect e = tt
      no_ops (refused_effect problem) e = tt
      no_ops (effect ops) e = cc

  pub settle_verdict-IsUntouched :
      (in_round : Bool) (settings : Json) (p q : Fields) (verdict : Verdict) (o : Option Outcome)
      (w w' : World) (r : Recorded)
      → LeavesAlone collection key verdict.ops
      → settle_verdict dates repo show did rkey now in_round settings p q verdict o w ≡ (some r, w')
      → r.is_applied ≡ false
      → IsUntouched d collection key w.rows w'.rows
  unfolding settle_verdict close_with keep_open put_proposal_record
  settle_verdict-IsUntouched in_round settings p q verdict none w w' r alone h unapplied =
      let answer : Recorded = record {
        status = lookup "status" q;
        is_applied = false;
        apply_at = none;
        is_deferred = verdict.deferred;
      } in
      let (u, w1, done, second) =
        bind_some (put_proposal_record repo did rkey q) (λ _. pure answer) w w' r h in
      let same : (put_proposal_record repo did rkey q w).1.rows ≡ w'.rows =
        ap (λ x. x.1.rows) done ∙ ap (λ x. x.1.rows) second in
      subst (λ rows. IsUntouched d collection key w.rows rows) same
        (IsUntouched-writes repo d collection key out did (proposal_write_op w.rows did rkey q ∷ [])
          w (proposal_alone repo d collection key out w.rows did rkey q [] tt))
  settle_verdict-IsUntouched in_round settings p q verdict (some outcome) w w' r alone h unapplied =
      closed (window_of dates settings in_round outcome verdict.decision now) h
    where
      closed :
          (window : Option (Option String))
          → close_with dates repo show did rkey now in_round p q outcome verdict window w
            ≡ (some r, w')
          → IsUntouched d collection key w.rows w'.rows
      closed none k = cc
      closed (some window) k =
          commit_resolution-IsUntouched in_round outcome verdict window
            (effect_of w.rows did (obj p) outcome window) _ w w' r alone k unapplied
