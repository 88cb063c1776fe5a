-- ===== src/Lifecycle/Recorded.antt =====
-- What a recorded vote leaves in the caches of the proposal, and what it finds in them.
use mathlib.Core.Option.{some-injective}
use openfederation_pds.Base.{
  sym, ap, ◌∙◌, List, ℕ, ◌≡◌, ◌≢◌, refl, inl, inr, Bool-cases, Option-cases, Bool, true, false,
  Option, none, some, String,
}
use openfederation_pds.Json.{Num, str, obj, Fields, lookup, put, is_str}
use openfederation_pds.Dates.{Dates}
use openfederation_pds.Rules.{VoteChoice, uses_vote_record_evidence}
use openfederation_pds.Index.{Row, Repo, World, Act, ◌>>=◌, pure, audit_log}
use openfederation_pds.Timelock.Objections.{override_status}
use openfederation_pds.Timelock.Merge.{community_settings_record}
use openfederation_pds.Timelock.Apply.{put_proposal_record, settings_or_undefined}
use openfederation_pds.Voting.{
  VoteRefusal, VoteAnswer, refused_vote, recorded_vote, proposal_expired, phase_refusal,
  record_refusal, settle_vote, cast_vote, expire_proposal, vote_in_phase, vote_on_record,
  vote_on_row, vote_locked,
}
use openfederation_pds.Voting.Counting.{has_voted, count_votes}
use openfederation_pds.Voting.Resolving.{Verdict, Recorded, settle_verdict, verdict_of}
use openfederation_pds.Lifecycle.{bind_some, IsAway, IsAtLeast}
use openfederation_pds.Lifecycle.Names.{has_voted-count_votes, count_votes-names}
use openfederation_pds.Lifecycle.Voted.{vote_locked-Keeps}
use openfederation_pds.Lifecycle.Named.{IsNamed, Puts, Puts-first, Puts-last, settle_verdict-Puts}

-- The proposal that is found is the one that names the voter.
named_there :
    (did rkey name : String) (rows : List Row) (s : IsAtLeast did rkey 0 rows)
    → IsNamed did rkey name rows
    → has_voted name s.proposal ≡ true
named_there did rkey name rows s n =
    let same_row = sym s.found ∙ n.found in
    let same = sym s.held ∙ (ap (λ (x : Row). x.rec) (some-injective _ _ same_row) ∙ n.held) in
    cc (same, n.named)

module _ (dates : Dates) (repo : Repo) (show : Num → String)
    (unique : String → String → Option String) (check : String → Option Bool) (tids : ℕ → String)
    (did rkey voter : String) (vote : VoteChoice) (t : ℕ) where
  abbrev locked : Act VoteAnswer
  locked = vote_locked dates repo show unique check tids did rkey voter vote t

  settle_vote-Puts :
      (name : String) (row : Row) (p q : Fields)
      → has_voted name q ≡ true
      → IsAway rkey p
      → Puts repo did rkey name
          (settle_vote dates repo show unique check tids did rkey voter vote t row p q)
  unfolding settle_vote audit_log
  settle_vote-Puts name row p q named away w w' b h =
      let settings = settings_or_undefined (community_settings_record w.rows did) in
      let in_round = is_str (lookup "status" p) override_status in
      let now = dates.iso t in
      let decide = verdict_of dates repo show did rkey now in_round settings row.cid q (tids 0) in
      let settle_it : Verdict → Act Recorded = λ verdict.
        settle_verdict dates repo show did rkey now in_round settings p q verdict verdict.outcome in
      let rest : Recorded → Act VoteAnswer = λ recorded.
        audit_log "community.proposal.vote" did rkey >>= λ _. pure (recorded_vote recorded) in
      elim (Bool-cases (repo.has_key did)) [
        | inl e ↦
            Puts-last repo did rkey name decide (λ verdict. settle_it verdict >>= rest)
              (λ verdict.
                Puts-first repo did rkey name (settle_it verdict) rest
                  (settle_verdict-Puts dates repo show did rkey name now in_round settings p q
                    verdict verdict.outcome named away)
                  (λ recorded w. refl))
              w w' b (rw e at h)
        | inr e ↦ let bad = rw e at h in cc
      ]

  -- The names that a vote counts.
  abbrev counted_names : Row → Fields → World → Fields
  counted_names row p w =
      (count_votes check (uses_vote_record_evidence (obj p)) did rkey row.cid voter vote w.rows p
        w).0.proposal

  cast_vote-IsNamed :
      (name : String) (row : Row) (p : Fields) (w w' : World) (b : VoteAnswer)
      → has_voted name (counted_names row p w) ≡ true
      → IsAway rkey p
      → cast_vote dates repo show unique check tids did rkey voter vote t row p w ≡ (some b, w')
      → IsNamed did rkey name w'.rows
  unfolding cast_vote
  cast_vote-IsNamed name row p w w' b named away h =
      settle_vote-Puts name row p _ named away _ w' b h

  expired_is_refusal :
      (w w' : World) (r : Recorded)
      → (audit_log "community.proposal.expire" did rkey >>= λ _.
            pure (refused_vote proposal_expired))
          w
        ≢ (some (recorded_vote r), w')
  unfolding audit_log
  expired_is_refusal w w' r h = cc

  -- A vote is recorded where it is cast, and nowhere else.
  pub recorded_cast :
      (row : Row) (p : Fields) (refusal : Option VoteRefusal) (w w' : World) (r : Recorded)
      → vote_in_phase dates repo show unique check tids did rkey voter vote t row p refusal w
        ≡ (some (recorded_vote r), w')
      → (has_voted voter p ≡ false)
        × (cast_vote dates repo show unique check tids did rkey voter vote t row p w
            ≡ (some (recorded_vote r), w'))
  unfolding vote_in_phase expire_proposal
  recorded_cast row p (some proposal_expired) w w' r h =
      let q = put "resolvedAt" (str (dates.iso t)) (put "status" (str "expired") p) in
      let (u, w1, _, second) =
        bind_some (put_proposal_record repo did rkey q)
          (λ _. audit_log "community.proposal.expire" did rkey >>= λ _.
            pure (refused_vote proposal_expired))
          w w' (recorded_vote r) h in
      absurd (expired_is_refusal w1 w' r second)
  recorded_cast row p (some refusal) w w' r h = cc
  recorded_cast row p none w w' r h =
      let able = record_refusal (uses_vote_record_evidence (obj p)) (check voter) in
      elim (Bool-cases (has_voted voter p)) [
        | inl e ↦ let bad = rw e at h in cc
        | inr e ↦ elim (Option-cases able) [
          | inr (refusal, e2) ↦ let bad = rw e2 at (rw e at h) in cc
          | inl e2 ↦ (e, rw e2 at (rw e at h))
        ]
      ]

  -- Of a proposal whose change is about another record, a name that a recorded vote counts is in the
  -- caches after it.
  recorded-IsNamed :
      (name : String) (w w' : World) (r : Recorded) (s : IsAtLeast did rkey 0 w.rows)
      → has_voted name (counted_names s.row s.proposal w) ≡ true
      → locked w ≡ (some (recorded_vote r), w')
      → IsNamed did rkey name w'.rows
  unfolding vote_locked vote_on_row vote_on_record
  recorded-IsNamed name w w' r s named h =
      let on_record = rw s.held at (rw s.found at h) in
      let (_, cast) =
        recorded_cast s.row s.proposal (phase_refusal dates t s.proposal) w w' r on_record in
      cast_vote-IsNamed name s.row s.proposal w w' (recorded_vote r) named s.away cast

  -- The voter is in the caches after a recorded vote.
  pub recorded-names_voter :
      (w w' : World) (r : Recorded)
      → IsAtLeast did rkey 0 w.rows
      → locked w ≡ (some (recorded_vote r), w')
      → IsNamed did rkey voter w'.rows
  recorded-names_voter w w' r s h =
      recorded-IsNamed voter w w' r s
        (has_voted-count_votes check (uses_vote_record_evidence (obj s.proposal)) did rkey s.row.cid
          voter vote w.rows s.proposal w)
        h

  -- Whoever is in the caches is still in them after a recorded vote.
  pub recorded-names_kept :
      (name : String) (w w' : World) (r : Recorded)
      → IsAtLeast did rkey 0 w.rows
      → IsNamed did rkey name w.rows
      → locked w ≡ (some (recorded_vote r), w')
      → IsNamed did rkey name w'.rows
  recorded-names_kept name w w' r s n h =
      recorded-IsNamed name w w' r s
        (count_votes-names check (uses_vote_record_evidence (obj s.proposal)) did rkey s.row.cid
          voter vote name w.rows s.proposal w (named_there did rkey name w.rows s n))
        h

  pub recorded-IsAtLeast :
      (w w' : World) (r : Recorded)
      → IsAtLeast did rkey 0 w.rows
      → locked w ≡ (some (recorded_vote r), w')
      → IsAtLeast did rkey 0 w'.rows
  recorded-IsAtLeast w w' r s h =
      let kept = vote_locked-Keeps dates repo show unique check tids did rkey voter vote t 0 w s in
      rw (ap (λ x. x.1.rows) h) at kept

  -- No vote of a voter who is in the caches is recorded.
  pub named_refuses :
      (w w' : World) (r : Recorded)
      → IsNamed did rkey voter w.rows
      → locked w ≢ (some (recorded_vote r), w')
  unfolding vote_locked vote_on_row vote_on_record
  named_refuses w w' r s h =
      let on_record = rw s.held at (rw s.found at h) in
      let (fresh, _) =
        recorded_cast s.row s.proposal (phase_refusal dates t s.proposal) w w' r on_record in
      let named = s.named in cc
