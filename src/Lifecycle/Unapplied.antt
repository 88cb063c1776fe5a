-- ===== src/Lifecycle/Unapplied.antt =====
-- A vote that does not apply the change of the proposal changes nothing else.
use openfederation_pds.Base.{
  ℕ, ◌≡◌, refl, sym, ap, ◌∙◌, subst, inl, inr, Bool-cases, Option-cases, Bool, false, Option, some,
  String,
}
use openfederation_pds.Json.{Json, Num, obj, Fields, lookup, is_str}
use openfederation_pds.Dates.{Dates}
use openfederation_pds.Rules.{
  VoteChoice, quorum_rule, proposal_collection, uses_vote_record_evidence,
}
use openfederation_pds.Index.{Row, Repo, World, Act, ◌>>=◌, pure, find_row, audit_log}
use openfederation_pds.Index.Laws.{LeavesAlone}
use openfederation_pds.Resolution.{tally_from_vote_records}
use openfederation_pds.Timelock.Objections.{override_status, ordinary_quorum}
use openfederation_pds.Timelock.Merge.{community_settings_record}
use openfederation_pds.Timelock.Apply.{settings_or_undefined}
use openfederation_pds.Voting.{
  VoteAnswer, recorded_vote, phase_refusal, with_keys, settle_vote, cast_vote, vote_on_record,
  vote_on_row, vote_locked,
}
use openfederation_pds.Voting.Counting.{count_votes}
use openfederation_pds.Voting.Resolving.{
  Verdict, Recorded, frozen_bar, decide_round, model_name, bar_or, audit_deferral, prepare,
  verdict_of, settle_verdict,
}
use openfederation_pds.Lifecycle.{bind_some}
use openfederation_pds.Lifecycle.Counted.{count_votes-kept, IsQuiet-verdict_of}
use openfederation_pds.Lifecycle.Recorded.{recorded_cast}
use openfederation_pds.Lifecycle.Outside.{
  IsUntouched, IsOutside, IsUntouched-write_vote_records, answer-eq, prepare_alone,
  settle_verdict-IsUntouched,
}

module _ (dates : Dates) (repo : Repo) (show : Num → String) (did rkey now : String)
    (d collection key : String) (out : IsOutside collection) where
  verdict_alone :
      (in_round : Bool) (settings : Json) (proposal_cid : String) (q : Fields) (tid : String)
      (w w' : World) (v : Verdict)
      → verdict_of dates repo show did rkey now in_round settings proposal_cid q tid w
        ≡ (some v, w')
      → LeavesAlone collection key v.ops
  unfolding verdict_of
  verdict_alone in_round settings proposal_cid q tid w w' v h =
      let bar = frozen_bar in_round q in
      let quorum = ordinary_quorum settings in
      let tally = tally_from_vote_records w.rows did rkey (obj q) proposal_cid in
      let decided = decide_round bar quorum tally q in
      let rule =
        quorum_rule show (model_name dates repo show did rkey now settings)
          (bar_or dates repo show did rkey now bar quorum) in
      elim (Bool-cases (uses_vote_record_evidence (obj q))) [
        | inl e ↦
            let (u, w1, _, second) =
              bind_some (audit_deferral dates repo show did rkey now decided.deferred)
                (λ _.
                  prepare dates repo show did rkey now proposal_cid q tally rule tid
                    decided.deferred decided.outcome)
                w w' v (rw e at h) in
            prepare_alone dates repo show did rkey now d collection key out proposal_cid q tally
              rule tid decided.deferred decided.outcome w1 w' v second
        | inr e ↦
            subst (λ ops. LeavesAlone collection key ops)
              (ap (λ x. x.ops) (answer-eq _ v w w' (rw e at h))) tt
      ]

pub recorded_answer :
    (did rkey : String) (a b : Recorded) (w w' : World)
    → (audit_log "community.proposal.vote" did rkey >>= λ _. pure (recorded_vote a)) w
      ≡ (some (recorded_vote b), w')
    → (a ≡ b) × (w.rows ≡ w'.rows)
unfolding audit_log
recorded_answer did rkey a b w w' h = (cc, ap (λ x. x.1.rows) h)

module _ (dates : Dates) (repo : Repo) (show : Num → String)
    (unique : String → String → Option String) (check : String → Option Bool) (tids : ℕ → String)
    (did rkey voter : String) (vote : VoteChoice) (t : ℕ) (d collection key : String)
    (out : IsOutside collection) where
  settle_vote-IsUntouched :
      (row : Row) (p q : Fields) (w w' : World) (r : Recorded)
      → settle_vote dates repo show unique check tids did rkey voter vote t row p q w
        ≡ (some (recorded_vote r), w')
      → r.is_applied ≡ false
      → IsUntouched d collection key w.rows w'.rows
  unfolding settle_vote
  settle_vote-IsUntouched row p q w w' r h unapplied =
      let settings = settings_or_undefined (community_settings_record w.rows did) in
      let in_round = is_str (lookup "status" p) override_status in
      let now = dates.iso t in
      let decide = verdict_of dates repo show did rkey now in_round settings row.cid q (tids 0) in
      let settle_it : Verdict → Act Recorded = λ verdict.
        settle_verdict dates repo show did rkey now in_round settings p q verdict verdict.outcome in
      let rest : Recorded → Act VoteAnswer = λ recorded.
        audit_log "community.proposal.vote" did rkey >>= λ _. pure (recorded_vote recorded) in
      elim (Bool-cases (repo.has_key did)) [
        | inr e ↦ let bad = rw e at h in cc
        | inl e ↦
            let (verdict, w1, decided, settled) =
              bind_some decide (λ verdict. settle_it verdict >>= rest) w w' (recorded_vote r)
                (rw e at h) in
            let (recorded, w2, done, answered) =
              bind_some (settle_it verdict) rest w1 w' (recorded_vote r) settled in
            let (same, after) = recorded_answer did rkey recorded r w2 w' answered in
            let before : w1.rows ≡ w.rows =
              ap (λ x. x.1.rows) (sym decided)
              ∙ IsQuiet-verdict_of dates repo show did rkey now in_round settings row.cid q (tids 0)
                  w in
            let step : IsUntouched d collection key w1.rows w2.rows =
              settle_verdict-IsUntouched dates repo show did rkey now d collection key out in_round
                settings p q verdict verdict.outcome w1 w2 recorded
                (verdict_alone dates repo show did rkey now d collection key out in_round settings
                  row.cid q (tids 0) w w1 verdict decided)
                done (ap (λ x. x.is_applied) same ∙ unapplied) in
            record {
              same =
                  ap (λ rows. find_row d collection key rows) (sym after)
                  ∙ (step.same ∙ ap (λ rows. find_row d collection key rows) before);
            }
      ]

  cast_vote-IsUntouched :
      (row : Row) (p : Fields) (w w' : World) (r : Recorded)
      → cast_vote dates repo show unique check tids did rkey voter vote t row p w
        ≡ (some (recorded_vote r), w')
      → r.is_applied ≡ false
      → IsUntouched d collection key w.rows w'.rows
  unfolding cast_vote
  cast_vote-IsUntouched row p w w' r h unapplied =
      let evidence = uses_vote_record_evidence (obj p) in
      let counted = count_votes check evidence did rkey row.cid voter vote w.rows p w in
      let same =
        (count_votes-kept check evidence did rkey row.cid voter vote "status" (refl, refl) w.rows p
          w).1 in
      let written =
        IsUntouched-write_vote_records repo d collection key out unique
          (with_keys tids 1 (dates.iso t) counted.0.inputs) counted.1 in
      let settled = settle_vote-IsUntouched row p counted.0.proposal _ w' r h unapplied in
      record {
        same = settled.same ∙ (written.same ∙ ap (λ rows. find_row d collection key rows) same);
      }

  on_record-IsUntouched :
      (row : Row) (v : Json) (w w' : World) (r : Recorded)
      → vote_on_record dates repo show unique check tids did rkey voter vote t row v w
        ≡ (some (recorded_vote r), w')
      → r.is_applied ≡ false
      → IsUntouched d collection key w.rows w'.rows
  unfolding vote_on_record
  on_record-IsUntouched row (obj p) w w' r h unapplied =
      let (_, cast) =
        recorded_cast dates repo show unique check tids did rkey voter vote t row p
          (phase_refusal dates t p) w w' r h in
      cast_vote-IsUntouched row p w w' r cast unapplied
  on_record-IsUntouched row v w w' r h unapplied = cc

-- Where a vote is recorded and its answer does not say that the change was applied, be it that the
-- proposal is still open, is rejected, was approved and now waits out its contest window, or was approved
-- with a change that is refused, every record of every account outside the collections of proposals, of
-- votes and of decisions is in the store as it was before.
pub unapplied_vote :
    (dates : Dates) (repo : Repo) (show : Num → String) (unique : String → String → Option String)
    (check : String → Option Bool) (tids : ℕ → String) (did rkey voter : String) (vote : VoteChoice)
    (t : ℕ) (d collection key : String) (w w' : World) (r : Recorded)
    → IsOutside collection
    → vote_locked dates repo show unique check tids did rkey voter vote t w
      ≡ (some (recorded_vote r), w')
    → r.is_applied ≡ false
    → IsUntouched d collection key w.rows w'.rows
unfolding vote_locked vote_on_row
unapplied_vote dates repo show unique check tids did rkey voter vote t d collection key w w' r out h
      unapplied =
    elim (Option-cases (find_row did proposal_collection rkey w.rows)) [
      | inl e ↦ let bad = rw e at h in cc
      | inr (row, e) ↦
          on_record-IsUntouched dates repo show unique check tids did rkey voter vote t d collection
            key out row row.rec w w' r (rw e at h) unapplied
    ]
