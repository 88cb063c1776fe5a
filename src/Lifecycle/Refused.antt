-- ===== src/Lifecycle/Refused.antt =====
-- What a request that is refused leaves behind.
use openfederation_pds.Base.{
  ℕ, ◌≡◌, ◌≢◌, ◌⊎◌, refl, inl, inr, Bool-cases, Option-cases, Bool, Option, none, some, String,
  arith, text_lt, length,
}
use openfederation_pds.Json.{Json, Num, obj, Fields, lookup, is_str}
use openfederation_pds.Dates.{Dates}
use openfederation_pds.Rules.{
  VoteChoice, proposal_collection, uses_vote_record_evidence, objection_threshold,
}
use openfederation_pds.Index.{
  Row, Repo, World, Act, ◌>>=◌, pure, find_row, apply_writes, put_record, audit_log,
}
use openfederation_pds.Records.{ObjectionRecordInput, write_objection_record}
use openfederation_pds.Timelock.Objections.{countable_objections, override_status}
use openfederation_pds.Timelock.Merge.{community_settings_record}
use openfederation_pds.Timelock.Apply.{settings_or_undefined}
use openfederation_pds.Voting.{
  VoteRefusal, VoteAnswer, refused_vote, recorded_vote, proposal_expired, phase_refusal,
  record_refusal, settle_vote, cast_vote, vote_in_phase, vote_on_record, vote_on_row, vote_locked,
}
use openfederation_pds.Voting.Counting.{has_voted}
use openfederation_pds.Voting.Resolving.{Verdict, Recorded, settle_verdict, verdict_of}
use openfederation_pds.Objecting.{
  Contest, ObjectionAnswer, ObjectionRefusal, refused_objection, registered, able_refusal,
  status_refusal, contest_of, hold_if_reached, register, after_record, object_now, has_objected,
  object_in_window, object_in_status, object_to_record, object_to_row, object_locked,
}
use openfederation_pds.Lifecycle.{bind_some}

module _ (dates : Dates) (repo : Repo) (show : Num → String)
    (unique : String → String → Option String) (check : String → Option Bool) (tids : ℕ → String)
    (did rkey voter : String) (vote : VoteChoice) (t : ℕ) where
  answer_is_recorded :
      (recorded : Recorded) (w w' : World) (r : VoteRefusal)
      → (audit_log "community.proposal.vote" did rkey >>= λ _. pure (recorded_vote recorded)) w
        ≢ (some (refused_vote r), w')
  unfolding audit_log
  answer_is_recorded recorded w w' r h = cc

  settle_never_refuses :
      (row : Row) (p q : Fields) (w w' : World) (r : VoteRefusal)
      → settle_vote dates repo show unique check tids did rkey voter vote t row p q w
        ≢ (some (refused_vote r), w')
  unfolding settle_vote
  settle_never_refuses row p q w w' r h =
      let settings = settings_or_undefined (community_settings_record w.rows did) in
      let in_round = is_str (lookup "status" p) override_status in
      let now = dates.iso t in
      let decide = verdict_of dates repo show did rkey now in_round settings row.cid q (tids 0) in
      let settle_it : Verdict → Act Recorded = λ verdict.
        settle_verdict dates repo show did rkey now in_round settings p q verdict verdict.outcome in
      let rest : Recorded → Act VoteAnswer = λ recorded.
        audit_log "community.proposal.vote" did rkey >>= λ _. pure (recorded_vote recorded) in
      elim (Bool-cases (repo.has_key did)) [
        | inr e ↦ let bad = rw e at h in cc
        | inl e ↦
            let (verdict, w1, _, settled) =
              bind_some decide (λ verdict. settle_it verdict >>= rest) w w' (refused_vote r)
                (rw e at h) in
            let (recorded, w2, _, answered) =
              bind_some (settle_it verdict) rest w1 w' (refused_vote r) settled in
            answer_is_recorded recorded w2 w' r answered
      ]

  refused_in_phase :
      (row : Row) (p : Fields) (refusal : Option VoteRefusal) (w w' : World) (r : VoteRefusal)
      → vote_in_phase dates repo show unique check tids did rkey voter vote t row p refusal w
        ≡ (some (refused_vote r), w')
      → (refusal ≡ some proposal_expired) ⊎ (w' ≡ w)
  unfolding vote_in_phase cast_vote
  refused_in_phase row p (some proposal_expired) w w' r h = inl refl
  refused_in_phase row p (some refusal) w w' r h = inr cc
  refused_in_phase row p none w w' r h =
      let able = record_refusal (uses_vote_record_evidence (obj p)) (check voter) in
      elim (Bool-cases (has_voted voter p)) [
        | inl e ↦ let same = rw e at h in inr cc
        | inr e ↦ elim (Option-cases able) [
          | inr (refusal, e2) ↦ let same = rw e2 at (rw e at h) in inr cc
          | inl e2 ↦ absurd (settle_never_refuses row p _ _ w' r (rw e2 at (rw e at h)))
        ]
      ]

  -- Where the part of a vote under the proposal's lock ends in a refusal, the store and the audit log
  -- are as they were, but for one case: the proposal is in the store and the time to vote on it is over.
  pub refused_vote_leaves :
      (w w' : World) (r : VoteRefusal)
      → vote_locked dates repo show unique check tids did rkey voter vote t w
        ≡ (some (refused_vote r), w')
      → (w' ≡ w)
        ⊎ ((row : Row) × (p : Fields) × (find_row did proposal_collection rkey w.rows ≡ some row)
            × (row.rec ≡ obj p)
            × (phase_refusal dates t p ≡ some proposal_expired))
  unfolding vote_locked vote_on_row vote_on_record
  refused_vote_leaves w w' r h =
      elim (Option-cases (find_row did proposal_collection rkey w.rows)) [
        | inl e ↦ let same = rw e at h in inl cc
        | inr (row, e) ↦ on_record row row.rec e refl (rw e at h)
      ]
    where
      on_record :
          (row : Row) (v : Json)
          → find_row did proposal_collection rkey w.rows ≡ some row
          → row.rec ≡ v
          → vote_on_record dates repo show unique check tids did rkey voter vote t row v w
            ≡ (some (refused_vote r), w')
          → (w' ≡ w)
            ⊎ ((row : Row) × (p : Fields) × (find_row did proposal_collection rkey w.rows
                  ≡ some row)
                × (row.rec ≡ obj p)
                × (phase_refusal dates t p ≡ some proposal_expired))
      on_record row (obj p) found held k =
          elim (refused_in_phase row p (phase_refusal dates t p) w w' r k) [
            | inl expired ↦ inr (row, p, found, held, expired)
            | inr same ↦ inl same
          ]
      on_record row v found held k = cc

write_objection_record-failed :
    (repo : Repo) (input : ObjectionRecordInput) (tid now : String) (w : World)
    → (write_objection_record repo input tid now w).0 ≡ none
    → (write_objection_record repo input tid now w).1 ≡ w
unfolding write_objection_record put_record apply_writes
write_objection_record-failed repo input tid now w h = ground arith

module _ (dates : Dates) (repo : Repo) (check : String → Option Bool) (did rkey objector : String)
    (reason : Option String) (tid : String) (t : ℕ) where
  answer_is_registered :
      (a : ObjectionAnswer) (w w' : World) (r : ObjectionRefusal)
      → a ≢ refused_objection r
      → (audit_log "community.proposal.objection" did rkey >>= λ _. pure a) w
        ≢ (some (refused_objection r), w')
  unfolding audit_log
  answer_is_registered a w w' r apart h = apart cc

  register_never_refuses :
      (p : Fields) (w w' : World) (r : ObjectionRefusal)
      → register dates repo check did rkey objector reason tid t p w
        ≢ (some (refused_objection r), w')
  unfolding register
  register_never_refuses p w w' r h =
      let settings = settings_or_undefined (community_settings_record w.rows did) in
      let os = countable_objections w.rows did rkey (obj p) in
      let answer : Json → ObjectionAnswer = λ status.
        registered (record {
          status = status;
          count = length os;
          threshold = objection_threshold settings;
        }) in
      let (status, w1, _, answered) =
        bind_some (hold_if_reached dates repo check did rkey objector reason tid t p settings os)
          (λ status.
            audit_log "community.proposal.objection" did rkey >>= λ _. pure (answer status))
          w w' (refused_objection r) h in
      answer_is_registered (answer status) w1 w' r (λ e. cc) answered

  refused_after :
      (p : Fields) (done : Option (Unit {0})) (w w1 w' : World) (r : ObjectionRefusal)
      → (done ≡ none → w1 ≡ w)
      → after_record dates repo check did rkey objector reason tid t p done w1
        ≡ (some (refused_objection r), w')
      → w' ≡ w
  unfolding after_record
  refused_after p none w w1 w' r same h = let failed = same refl in cc
  refused_after p (some u) w w1 w' r same h = absurd (register_never_refuses p w1 w' r h)

  refused_in_window :
      (row : Row) (p : Fields) (c : Option Contest) (w w' : World) (r : ObjectionRefusal)
      → object_in_window dates repo check did rkey objector reason tid t row p c w
        ≡ (some (refused_objection r), w')
      → w' ≡ w
  unfolding object_in_window object_now
  refused_in_window row p none w w' r h = cc
  refused_in_window row p (some c) w w' r h = elim (Bool-cases (text_lt (dates.iso t) c.apply_at)) [
    | inr e ↦ let same = rw e at h in cc
    | inl e ↦
        elim (Bool-cases (has_objected dates repo check did rkey objector reason tid t w.rows p)) [
          | inl e2 ↦ let same = rw e2 at (rw e at h) in cc
          | inr e2 ↦ elim (Option-cases (able_refusal (check objector))) [
            | inr (refusal, e3) ↦ let same = rw e3 at (rw e2 at (rw e at h)) in cc
            | inl e3 ↦
                refused_after p _ w _ w' r
                  (write_objection_record-failed repo _ tid (dates.iso t) w)
                  (rw e3 at (rw e2 at (rw e at h)))
          ]
        ]
  ]

  refused_in_status :
      (row : Row) (p : Fields) (refusal : Option ObjectionRefusal) (w w' : World)
      (r : ObjectionRefusal)
      → object_in_status dates repo check did rkey objector reason tid t row p refusal w
        ≡ (some (refused_objection r), w')
      → w' ≡ w
  unfolding object_in_status
  refused_in_status row p (some refusal) w w' r h = cc
  refused_in_status row p none w w' r h = refused_in_window row p (contest_of p) w w' r h

  refused_on_record :
      (row : Row) (v : Json) (w w' : World) (r : ObjectionRefusal)
      → object_to_record dates repo check did rkey objector reason tid t row v w
        ≡ (some (refused_objection r), w')
      → w' ≡ w
  unfolding object_to_record
  refused_on_record row (obj p) w w' r h = refused_in_status row p (status_refusal p) w w' r h
  refused_on_record row v w w' r h = cc

  -- Where the part of an objection under the proposal's lock ends in a refusal, be it that the
  -- objection's own record could not be written, the store and the audit log are as they were.
  pub refused_objection_leaves :
      (w w' : World) (r : ObjectionRefusal)
      → object_locked dates repo check did rkey objector reason tid t w
        ≡ (some (refused_objection r), w')
      → w' ≡ w
  unfolding object_locked object_to_row
  refused_objection_leaves w w' r h =
      elim (Option-cases (find_row did proposal_collection rkey w.rows)) [
        | inl e ↦ let same = rw e at h in cc
        | inr (row, e) ↦ refused_on_record row row.rec w w' r (rw e at h)
      ]
