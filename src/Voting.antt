-- ===== src/Voting.antt =====
-- A vote on a proposal, src/api/net.openfederation.community.voteOnProposal.ts. The call is made at one
-- instant of the clock; `tids` gives the record keys that it generates. The notarization after the
-- lock returns nothing that is read, and is left out.
pub mod Counting
pub mod Resolving
use openfederation_pds.Base.{
  ℕ, suc, Bool, true, false, not, ◌&&◌, ◌||◌, Option, none, some, List, [], ◌∷◌, ◌++◌, String, ◌<>◌,
  str_eq, text_lt, ltb, if◌then◌else◌, includes,
}
use openfederation_pds.Json.{
  Json, Num, undefined, str, obj, Fields, get, lookup, put, truthy, is_str, as_str,
}
use openfederation_pds.Dates.{Dates}
use openfederation_pds.Rules.{
  VoteChoice, for, against, proposal_collection, uses_vote_record_evidence, vote_value,
}
use openfederation_pds.Index.{Row, Repo, World, Act, ◌>>=◌, ◌>>◌, pure, throw, find_row, audit_log}
use openfederation_pds.Records.{VoteRecordInput, write_vote_records}
use openfederation_pds.Timelock.Merge.{community_settings_record}
use openfederation_pds.Timelock.Objections.{override_status}
use openfederation_pds.Timelock.Apply.{put_proposal_record, settings_or_undefined}
use openfederation_pds.Timelock.Override.{apply_due_proposals, close_expired_overrides}
use openfederation_pds.Voting.Counting.{Counted, has_voted, count_votes}
use openfederation_pds.Voting.Resolving.{Recorded, Verdict, verdict_of, settle_verdict}

pub data VoteRefusal : Type 0 where
  missing_fields bad_vote not_permitted proposal_not_found proposal_closed round_closed :
      VoteRefusal
  proposal_expired already_voted check_failed vote_not_recordable : VoteRefusal

pub data VoteAnswer : Type 0 where
  refused_vote : VoteRefusal → VoteAnswer
  recorded_vote : Recorded → VoteAnswer

-- Whether `expiresAt` is before the clock: `new Date(expiresAt) < new Date()`. A text that
-- is no date is never before it.
unfoldable pub is_past : Dates → ℕ → Option String → Bool
is_past dates t none = false
is_past dates t (some expires_at) = elim (dates.get_time expires_at) [
  | none ↦ false
  | some e ↦ not (str_eq expires_at "") && ltb e t
]

-- An override round without an end, or whose end has come.
unfoldable pub is_over : String → Option String → Bool
is_over now none = true
is_over now (some expires_at) = str_eq expires_at "" || not (text_lt now expires_at)

-- What the first checks of a proposal refuse; the expiry of an ordinary round is a refusal with an effect.
unfoldable pub phase_refusal : Dates → ℕ → Fields → Option VoteRefusal
unfolding is_over is_past
phase_refusal dates t proposal =
    let in_round = is_str (lookup "status" proposal) override_status in
    if not (is_str (lookup "status" proposal) "open") && not in_round
    then some proposal_closed
    else if in_round
    then (if is_over (dates.iso t) (as_str (lookup "overrideExpiresAt" proposal))
        then some round_closed
        else none)
    else if is_past dates t (as_str (lookup "expiresAt" proposal))
    then some proposal_expired
    else none

-- `canRecordVote` of the voter; `none` where the check fails.
unfoldable pub record_refusal : Bool → Option Bool → Option VoteRefusal
record_refusal false able = none
record_refusal true none = some check_failed
record_refusal true (some false) = some vote_not_recordable
record_refusal true (some true) = none

-- The record keys and the time of the records that are written.
unfoldable pub with_keys :
    (ℕ → String) → ℕ → String → List VoteRecordInput → List (VoteRecordInput × String × String)
with_keys tids i now [] = []
with_keys tids i now (input ∷ inputs) = (input, tids i, now) ∷ with_keys tids (suc i) now inputs

module _ (dates : Dates) (repo : Repo) (show : Num → String)
    (unique : String → String → Option String) (check : String → Option Bool) (tids : ℕ → String)
    (did rkey voter : String) (vote : VoteChoice) (t : ℕ) where
  -- What the votes decide, after the names of `p` are counted and their records are written.
  unfoldable pub settle_vote : Row → Fields → Fields → Act VoteAnswer
  unfolding verdict_of settle_verdict settings_or_undefined
  settle_vote row proposal p w =
      let settings = settings_or_undefined (community_settings_record w.rows did) in
      let in_round = is_str (lookup "status" proposal) override_status in
      (if repo.has_key did
          then (do
            verdict ←
                verdict_of dates repo show did rkey (dates.iso t) in_round settings row.cid p
                  (tids 0)
            recorded ←
                settle_verdict dates repo show did rkey (dates.iso t) in_round settings proposal p
                  verdict verdict.outcome
            audit_log "community.proposal.vote" did rkey
            pure (recorded_vote recorded))
          else throw)
        w

  -- The votes are counted, written and settled.
  unfoldable pub cast_vote : Row → Fields → Act VoteAnswer
  unfolding count_votes write_vote_records with_keys settle_vote
  cast_vote row proposal w =
      let (counted, w1) =
        count_votes check (uses_vote_record_evidence (obj proposal)) did rkey row.cid voter vote
          w.rows proposal w in
      let (_, w2) =
        write_vote_records repo unique (with_keys tids 1 (dates.iso t) counted.inputs) w1 in
      settle_vote row proposal counted.proposal w2

  unfoldable pub expire_proposal : Fields → Act VoteAnswer
  expire_proposal proposal = do
    put_proposal_record repo did rkey
        (put "resolvedAt" (str (dates.iso t)) (put "status" (str "expired") proposal))
    audit_log "community.proposal.expire" did rkey
    pure (refused_vote proposal_expired)

  unfoldable pub vote_in_phase : Row → Fields → Option VoteRefusal → Act VoteAnswer
  unfolding cast_vote expire_proposal has_voted record_refusal
  vote_in_phase row proposal (some proposal_expired) w = expire_proposal proposal w
  vote_in_phase row proposal (some refusal) w = (some (refused_vote refusal), w)
  vote_in_phase row proposal none w =
      if has_voted voter proposal
      then (some (refused_vote already_voted), w)
      else elim (record_refusal (uses_vote_record_evidence (obj proposal)) (check voter)) [
        | some refusal ↦ (some (refused_vote refusal), w)
        | none ↦ cast_vote row proposal w
      ]

  -- A proposal's record is an object.
  unfoldable pub vote_on_record : Row → Json → Act VoteAnswer
  unfolding vote_in_phase phase_refusal
  vote_on_record row (obj proposal) = vote_in_phase row proposal (phase_refusal dates t proposal)
  vote_on_record row _ = throw

  unfoldable pub vote_on_row : Option Row → Act VoteAnswer
  unfolding vote_on_record
  vote_on_row none w = (some (refused_vote proposal_not_found), w)
  vote_on_row (some row) w = vote_on_record row row.rec w

  -- The part under the proposal's advisory lock.
  unfoldable pub vote_locked : Act VoteAnswer
  unfolding vote_on_row
  vote_locked w = vote_on_row (find_row did proposal_collection rkey w.rows) w

  -- The sweeps over the community's proposals come first.
  unfoldable pub sweep_and_vote : Act VoteAnswer
  unfolding vote_locked apply_due_proposals close_expired_overrides
  sweep_and_vote w =
      let (_, w1) = apply_due_proposals dates repo did (dates.iso t) w in
      let (_, w2) = close_expired_overrides repo did (dates.iso t) w1 in vote_locked w2

unfoldable pub is_blank_field : Json → Bool
is_blank_field v = not (truthy v)

-- The whole request of an account that is signed in, with the permission that the guard finds. The
-- fields of the body are texts if they are given. `none` is the answer 500.
unfoldable pub vote_on_proposal :
    Dates
    → Repo
    → (Num → String)
    → (String → String → Option String)
    → (String → Option Bool)
    → (ℕ → String)
    → Bool
    → String
    → String
    → Json
    → String
    → ℕ
    → Act VoteAnswer
unfolding sweep_and_vote is_blank_field vote_value
vote_on_proposal dates repo show unique check tids permitted did rkey vote voter t w =
    if str_eq did "" || str_eq rkey "" || is_blank_field vote
    then (some (refused_vote missing_fields), w)
    else elim (vote_value vote) [
      | none ↦ (some (refused_vote bad_vote), w)
      | some choice ↦
          if permitted
          then sweep_and_vote dates repo show unique check tids did rkey voter choice t w
          else (some (refused_vote not_permitted), w)
    ]
