-- ===== src/Lifecycle/Voted.antt =====
-- The phase of a proposal through a vote.
use openfederation_pds.Base.{
  ℕ, ◌≤◌, ◌≡◌, ◌⊎◌, refl, inl, inr, Bool-cases, Option-cases, Bool, true, Option, none, some,
  String, arith,
}
use openfederation_pds.Json.{Num, str, obj, Fields, lookup, put, get, is_str, lookup-put}
use openfederation_pds.Dates.{Dates}
use openfederation_pds.Rules.{VoteChoice, uses_vote_record_evidence}
use openfederation_pds.Index.{Row, Repo, World, Act, ◌>>=◌, pure, audit_log}
use openfederation_pds.Timelock.Objections.{override_status}
use openfederation_pds.Timelock.Merge.{community_settings_record}
use openfederation_pds.Timelock.Apply.{put_proposal_record, settings_or_undefined}
use openfederation_pds.Voting.{
  VoteRefusal, VoteAnswer, refused_vote, recorded_vote, proposal_expired, phase_refusal,
  record_refusal, with_keys, settle_vote, cast_vote, expire_proposal, vote_in_phase, vote_on_record,
  vote_on_row, vote_locked,
}
use openfederation_pds.Voting.Counting.{has_voted, count_votes}
use openfederation_pds.Voting.Resolving.{Verdict, Recorded, settle_verdict, verdict_of}
use openfederation_pds.Lifecycle.{
  phase, IsAway, IsAtLeast, Keeps, Keeps-then, Keeps-audit, Keeps-quiet, Keeps-finish, Keeps-put,
}
use openfederation_pds.Lifecycle.Applied.{phase-le}
use openfederation_pds.Lifecycle.Counted.{count_votes-kept, IsQuiet-verdict_of}
use openfederation_pds.Lifecycle.Resolved.{settle_verdict-Keeps, write_vote_records-Keeps}

-- What passes the first tests of a vote is open, or in its override round.
open_or_round :
    (dates : Dates) (t : ℕ) (p : Fields)
    → phase_refusal dates t p ≡ none
    → (is_str (lookup "status" p) override_status ≡ true) ⊎ (phase (lookup "status" p) ≤ 0)
unfolding phase_refusal phase
open_or_round dates t p h = ground arith

module _ (dates : Dates) (repo : Repo) (show : Num → String)
    (unique : String → String → Option String) (check : String → Option Bool) (tids : ℕ → String)
    (did rkey voter : String) (vote : VoteChoice) (t : ℕ) (n : ℕ) where
  -- The proposal with the names counted is in the phase of the one that was read.
  counted-reached :
      (row : Row) (p : Fields) (w : World)
      → n ≤ phase (lookup "status" p)
      → n
        ≤ phase (
            lookup "status"
              (count_votes check
                (uses_vote_record_evidence (obj p))
                did
                rkey
                row.cid
                voter
                vote
                w.rows
                p
                w).0.proposal)
  counted-reached row p w h =
      rw
        (count_votes-kept check (uses_vote_record_evidence (obj p)) did rkey row.cid voter vote
          "status" (refl, refl) w.rows p w).0
        h

  counted-IsAway :
      (row : Row) (p : Fields) (w : World)
      → IsAway rkey p
      → IsAway rkey
          (count_votes check
            (uses_vote_record_evidence (obj p))
            did
            rkey
            row.cid
            voter
            vote
            w.rows
            p
            w).0.proposal
  unfolding get
  counted-IsAway row p w h =
      rw
        (count_votes-kept check (uses_vote_record_evidence (obj p)) did rkey row.cid voter vote
          "targetCollection" (refl, refl) w.rows p w).0
        (rw
          (count_votes-kept check (uses_vote_record_evidence (obj p)) did rkey row.cid voter vote
            "targetRkey" (refl, refl) w.rows p w).0
          h)

  expire_proposal-Keeps :
      (p : Fields)
      → n ≤ 3
      → IsAway rkey p
      → Keeps repo did rkey n
          (expire_proposal dates repo show unique check tids did rkey voter vote t p)
  unfolding expire_proposal phase is_str get
  expire_proposal-Keeps p h away w s =
      let q = put "resolvedAt" (str (dates.iso t)) (put "status" (str "expired") p) in
      Keeps-finish repo did rkey n (put_proposal_record repo did rkey q) "community.proposal.expire"
        did rkey (refused_vote proposal_expired)
        (Keeps-put repo did rkey n q (simp lookup-put h) (simp lookup-put away)) w s

  still_early :
      (p : Fields)
      → n ≤ phase (lookup "status" p)
      → (is_str (lookup "status" p) override_status ≡ true) ⊎ (phase (lookup "status" p) ≤ 0)
      → (is_str (lookup "status" p) override_status ≡ true) ⊎ (n ≤ 0)
  still_early p h (inl round) = inl round
  still_early p h (inr first) = inr (omega (arith, h, first))

  settle_vote-Keeps :
      (row : Row) (p q : Fields)
      → n ≤ phase (lookup "status" q)
      → (is_str (lookup "status" p) override_status ≡ true) ⊎ (n ≤ 0)
      → IsAway rkey p
      → IsAway rkey q
      → Keeps repo did rkey n
          (settle_vote dates repo show unique check tids did rkey voter vote t row p q)
  unfolding settle_vote
  settle_vote-Keeps row p q h early away_p away_q w s =
      let settings = settings_or_undefined (community_settings_record w.rows did) in
      let in_round = is_str (lookup "status" p) override_status in
      let now = dates.iso t in
      let decide = verdict_of dates repo show did rkey now in_round settings row.cid q (tids 0) in
      let settle_it : Verdict → Act Recorded = λ verdict.
        settle_verdict dates repo show did rkey now in_round settings p q verdict verdict.outcome in
      let rest : Recorded → Act VoteAnswer = λ recorded.
        audit_log "community.proposal.vote" did rkey >>= λ _. pure (recorded_vote recorded) in
      elim (Bool-cases (repo.has_key did)) [
        | inl e ↦ rw e (
            Keeps-then repo did rkey n decide (λ verdict. settle_it verdict >>= rest)
              (Keeps-quiet repo did rkey n decide (
                IsQuiet-verdict_of dates repo show did rkey now in_round settings row.cid q
                  (tids 0)))
              (λ verdict.
                Keeps-then repo did rkey n (settle_it verdict) rest
                  (settle_verdict-Keeps dates repo show did rkey now n in_round settings p q verdict
                    verdict.outcome h early away_p away_q)
                  (λ recorded.
                    Keeps-then repo did rkey n (audit_log "community.proposal.vote" did rkey)
                      (λ _. pure (recorded_vote recorded))
                      (Keeps-audit repo did rkey n "community.proposal.vote" did rkey)
                      (λ _ w s. s)))
              w s)
        | inr e ↦ rw e s
      ]

  cast_vote-Keeps :
      (row : Row) (p : Fields)
      → n ≤ phase (lookup "status" p)
      → (is_str (lookup "status" p) override_status ≡ true) ⊎ (n ≤ 0)
      → IsAway rkey p
      → Keeps repo did rkey n
          (cast_vote dates repo show unique check tids did rkey voter vote t row p)
  unfolding cast_vote
  cast_vote-Keeps row p h early away w s =
      let evidence = uses_vote_record_evidence (obj p) in
      let counted = count_votes check evidence did rkey row.cid voter vote w.rows p w in
      let same =
        (count_votes-kept check evidence did rkey row.cid voter vote "status" (refl, refl) w.rows p
          w).1 in
      let s1 : IsAtLeast did rkey n counted.1.rows = rw same s in
      settle_vote-Keeps row p counted.0.proposal (counted-reached row p w h) early away
        (counted-IsAway row p w away) _
        (write_vote_records-Keeps dates repo show did rkey (dates.iso t) n unique
          (with_keys tids 1 (dates.iso t) counted.0.inputs) counted.1 s1)

  refused-Keeps :
      (row : Row) (p : Fields) (refusal : VoteRefusal)
      → n ≤ 3
      → IsAway rkey p
      → Keeps repo did rkey n (
          vote_in_phase dates repo show unique check tids did rkey voter vote t row p
            (some refusal))
  unfolding vote_in_phase
  refused-Keeps row p proposal_expired h away w s = expire_proposal-Keeps p h away w s
  refused-Keeps row p refusal h away w s = s

  unrefused-Keeps :
      (row : Row) (p : Fields)
      → n ≤ phase (lookup "status" p)
      → IsAway rkey p
      → (is_str (lookup "status" p) override_status ≡ true) ⊎ (phase (lookup "status" p) ≤ 0)
      → Keeps repo did rkey n
          (vote_in_phase dates repo show unique check tids did rkey voter vote t row p none)
  unfolding vote_in_phase
  unrefused-Keeps row p h away early w s =
      let able = record_refusal (uses_vote_record_evidence (obj p)) (check voter) in
      elim (Bool-cases (has_voted voter p)) [
        | inl e ↦ rw e s
        | inr e ↦ elim (Option-cases able) [
          | inr (refusal, e2) ↦ rw e (rw e2 s)
          | inl e2 ↦ rw e (rw e2 (cast_vote-Keeps row p h (still_early p h early) away w s))
        ]
      ]

  in_phase-Keeps :
      (row : Row) (p : Fields)
      → n ≤ phase (lookup "status" p)
      → IsAway rkey p
      → Keeps repo did rkey n (
          vote_in_phase dates repo show unique check tids did rkey voter vote t row p
            (phase_refusal dates t p))
  in_phase-Keeps row p h away w s = elim (Option-cases (phase_refusal dates t p)) [
    | inr (refusal, e) ↦
        rw e (refused-Keeps row p refusal (omega (arith, h, phase-le (lookup "status" p))) away w s)
    | inl e ↦ rw e (unrefused-Keeps row p h away (open_or_round dates t p e) w s)
  ]

  -- A vote never takes the proposal back to an earlier phase.
  pub vote_locked-Keeps :
      Keeps repo did rkey n (vote_locked dates repo show unique check tids did rkey voter vote t)
  unfolding vote_locked vote_on_row vote_on_record
  vote_locked-Keeps w s =
      rw s.found (rw s.held (in_phase-Keeps s.row s.proposal s.reached s.away w s))
