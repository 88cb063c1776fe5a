-- ===== src/Lifecycle/Waiting.antt =====
-- A vote that opens the contest window of a decision does not apply the change.
use openfederation_pds.Base.{
  ℕ, ◌≡◌, ◌⊎◌, refl, subst, inl, inr, Bool-cases, Option-cases, Bool, false, Option, none, some,
  List, ◌∷◌, ◌++◌, String,
}
use openfederation_pds.Json.{Json, Num, obj, Fields, lookup, is_str}
use openfederation_pds.Dates.{Dates}
use openfederation_pds.Rules.{VoteChoice, Outcome, approved, rejected, proposal_collection}
use openfederation_pds.Index.{Row, Repo, World, Act, ◌>>=◌, pure, find_row, apply_writes, audit_log}
use openfederation_pds.Timelock.Objections.{override_status}
use openfederation_pds.Timelock.Merge.{community_settings_record}
use openfederation_pds.Timelock.Apply.{
  settings_or_undefined, put_proposal_record, proposal_write_op,
}
use openfederation_pds.Voting.{
  VoteAnswer, recorded_vote, phase_refusal, settle_vote, cast_vote, vote_on_record, vote_on_row,
  vote_locked,
}
use openfederation_pds.Voting.Resolving.{
  Verdict, Recorded, Effect, effect_of, effect_ops, is_effect, window_of, audit_carried,
  audit_outcome, commit_resolution, close_with, keep_open, verdict_of, settle_verdict,
}
use openfederation_pds.Lifecycle.{bind_some}
use openfederation_pds.Lifecycle.Recorded.{recorded_cast}
use openfederation_pds.Lifecycle.Outside.{IsUntouched, IsOutside, answer-eq}
use openfederation_pds.Lifecycle.Unapplied.{recorded_answer, unapplied_vote}

-- The answer names an end of a window, or says that the change was applied, and not both.
abbrev pub IsOneOf : Recorded → Type 0
IsOneOf r = (r.apply_at ≡ none) ⊎ (r.is_applied ≡ false)

IsOneOf-effect_of :
    (rows : List Row) (did : String) (proposal : Json) (outcome : Outcome) (window : Option String)
    → (window ≡ none) ⊎ (is_effect (effect_of rows did proposal outcome window) ≡ false)
unfolding effect_of is_effect
IsOneOf-effect_of rows did proposal outcome none = inl refl
IsOneOf-effect_of rows did proposal approved (some a) = inr refl
IsOneOf-effect_of rows did proposal rejected (some a) = inr refl

module _ (dates : Dates) (repo : Repo) (show : Num → String) (did rkey now : String) where
  IsOneOf-commit_resolution :
      (in_round : Bool) (outcome : Outcome) (verdict : Verdict) (window : Option String)
      (eff : Effect) (q : Fields) (w w' : World) (r : Recorded)
      → (window ≡ none) ⊎ (is_effect eff ≡ false)
      → commit_resolution dates repo show did rkey now in_round outcome verdict window eff q w
        ≡ (some r, w')
      → IsOneOf r
  unfolding commit_resolution
  IsOneOf-commit_resolution in_round outcome verdict window eff q w w' r one h =
      let answer : Recorded = record {
        status = lookup "status" q;
        is_applied = is_effect eff;
        apply_at = window;
        is_deferred = verdict.deferred;
      } in
      let carried = audit_carried dates repo show did rkey now in_round outcome in
      let audited = audit_outcome dates repo show did rkey now outcome window eff in
      let (u, w1, _, second) =
        bind_some
          (apply_writes repo did
            (verdict.ops ++ proposal_write_op w.rows did rkey q ∷ effect_ops eff))
          (λ _. carried >>= λ _. audited >>= λ _. pure answer) w w' r h in
      let (u2, w2, _, third) =
        bind_some carried (λ _. audited >>= λ _. pure answer) w1 w' r second in
      let (u3, w3, _, fourth) = bind_some audited (λ _. pure answer) w2 w' r third in
      subst IsOneOf (answer-eq answer r w3 w' fourth) one

  IsOneOf-settle_verdict :
      (in_round : Bool) (settings : Json) (p q : Fields) (verdict : Verdict) (o : Option Outcome)
      (w w' : World) (r : Recorded)
      → settle_verdict dates repo show did rkey now in_round settings p q verdict o w ≡ (some r, w')
      → IsOneOf r
  unfolding settle_verdict close_with keep_open
  IsOneOf-settle_verdict in_round settings p q verdict none w w' r h =
      let answer : Recorded = record {
        status = lookup "status" q;
        is_applied = false;
        apply_at = none;
        is_deferred = verdict.deferred;
      } in
      let (u, w1, _, second) =
        bind_some (put_proposal_record repo did rkey q) (λ _. pure answer) w w' r h in
      subst IsOneOf (answer-eq answer r w1 w' second) (inl refl)
  IsOneOf-settle_verdict in_round settings p q verdict (some outcome) w w' r h =
      closed (window_of dates settings in_round outcome verdict.decision now) h
    where
      closed :
          (window : Option (Option String))
          → close_with dates repo show did rkey now in_round p q outcome verdict window w
            ≡ (some r, w')
          → IsOneOf r
      closed none k = cc
      closed (some window) k =
          IsOneOf-commit_resolution in_round outcome verdict window
            (effect_of w.rows did (obj p) outcome window) _ w w' r
            (IsOneOf-effect_of w.rows did (obj p) outcome window) k

module _ (dates : Dates) (repo : Repo) (show : Num → String)
    (unique : String → String → Option String) (check : String → Option Bool) (tids : ℕ → String)
    (did rkey voter : String) (vote : VoteChoice) (t : ℕ) where
  IsOneOf-settle_vote :
      (row : Row) (p q : Fields) (w w' : World) (r : Recorded)
      → settle_vote dates repo show unique check tids did rkey voter vote t row p q w
        ≡ (some (recorded_vote r), w')
      → IsOneOf r
  unfolding settle_vote
  IsOneOf-settle_vote row p q w w' r h =
      let settings = settings_or_undefined (community_settings_record w.rows did) in
      let in_round = is_str (lookup "status" p) override_status in
      let now = dates.iso t in
      let decide = verdict_of dates repo show did rkey now in_round settings row.cid q (tids 0) in
      let settle_it : Verdict → Act Recorded = λ verdict.
        settle_verdict dates repo show did rkey now in_round settings p q verdict verdict.outcome in
      let rest : Recorded → Act VoteAnswer = λ recorded.
        audit_log "community.proposal.vote" did rkey >>= λ _. pure (recorded_vote recorded) in
      elim (Bool-cases (repo.has_key did)) [
        | inr e ↦ let bad = rw e at h in cc
        | inl e ↦
            let (verdict, w1, _, settled) =
              bind_some decide (λ verdict. settle_it verdict >>= rest) w w' (recorded_vote r)
                (rw e at h) in
            let (recorded, w2, done, answered) =
              bind_some (settle_it verdict) rest w1 w' (recorded_vote r) settled in
            let (same, _) = recorded_answer did rkey recorded r w2 w' answered in
            subst IsOneOf same (
              IsOneOf-settle_verdict dates repo show did rkey now in_round settings p q verdict
                verdict.outcome w1 w2 recorded done)
      ]

  IsOneOf-vote_on_record :
      (row : Row) (v : Json) (w w' : World) (r : Recorded)
      → vote_on_record dates repo show unique check tids did rkey voter vote t row v w
        ≡ (some (recorded_vote r), w')
      → IsOneOf r
  unfolding vote_on_record cast_vote
  IsOneOf-vote_on_record row (obj p) w w' r h =
      let (_, cast) =
        recorded_cast dates repo show unique check tids did rkey voter vote t row p
          (phase_refusal dates t p) w w' r h in
      IsOneOf-settle_vote row p _ _ w' r cast
  IsOneOf-vote_on_record row v w w' r h = cc

  IsOneOf-vote_locked :
      (w w' : World) (r : Recorded)
      → vote_locked dates repo show unique check tids did rkey voter vote t w
        ≡ (some (recorded_vote r), w')
      → IsOneOf r
  unfolding vote_locked vote_on_row
  IsOneOf-vote_locked w w' r h =
      elim (Option-cases (find_row did proposal_collection rkey w.rows)) [
        | inl e ↦ let bad = rw e at h in cc
        | inr (row, e) ↦ IsOneOf-vote_on_record row row.rec w w' r (rw e at h)
      ]

-- Where a recorded vote is answered with the end of a contest window, its answer does not say that the
-- change was applied, and every record of every account outside the collections of proposals, of votes
-- and of decisions is in the store as it was before: a decision that can be contested has had no effect.
pub window_waits :
    (dates : Dates) (repo : Repo) (show : Num → String) (unique : String → String → Option String)
    (check : String → Option Bool) (tids : ℕ → String) (did rkey voter : String) (vote : VoteChoice)
    (t : ℕ) (d collection key apply_at : String) (w w' : World) (r : Recorded)
    → IsOutside collection
    → vote_locked dates repo show unique check tids did rkey voter vote t w
      ≡ (some (recorded_vote r), w')
    → r.apply_at ≡ some apply_at
    → (r.is_applied ≡ false) × IsUntouched d collection key w.rows w'.rows
window_waits dates repo show unique check tids did rkey voter vote t d collection key apply_at w w'
      r out h waits =
    elim (IsOneOf-vote_locked dates repo show unique check tids did rkey voter vote t w w' r h) [
      | inl none_named ↦ let bad = waits in cc
      | inr unapplied ↦ (
        unapplied,
        unapplied_vote dates repo show unique check tids did rkey voter vote t d collection key w w'
            r out h unapplied,
      )
    ]
