-- ===== src/Lifecycle/Resolved.antt =====
-- The phase of a proposal through the resolution that a vote makes, and the votes' own records.
use openfederation_pds.Base.{
  ◌≢◌, ℕ, ◌≤◌, ◌≡◌, ◌⊎◌, refl, ap, inl, inr, Bool-cases, Bool, true, false, Option, none, some,
  List, [], ◌∷◌, ◌++◌, String, arith,
}
use openfederation_pds.Json.{Json, Num, obj, Fields, lookup, get, is_str}
use openfederation_pds.Dates.{Dates}
use openfederation_pds.Rules.{proposal_collection, vote_collection, Outcome, approved, rejected}
use openfederation_pds.Index.{
  Row, Repo, World, ◌>>=◌, pure, put_record, apply_writes, write, audit_log,
}
use openfederation_pds.Index.Laws.{LeavesAlone}
use openfederation_pds.Records.{
  VoteRecordInput, collect_eligibility_evidence, vote_record_json, write_vote_record,
  write_vote_records, written_or_audited, audit_missing_vote_record,
}
use openfederation_pds.Resolution.Decision.{DecisionRef, outcome_text}
use openfederation_pds.Timelock.Merge.{ChangeOps, change, unapplicable_change, proposed_change_ops}
use openfederation_pds.Timelock.Apply.{put_proposal_record, proposal_write_op}
use openfederation_pds.Timelock.Apply.SingleShot.{change-LeavesAlone}
use openfederation_pds.Voting.Resolving.{
  Verdict, Recorded, Effect, effect_of, effect_of_ops, effect_ops, is_effect, window_of,
  resolved_fields, audit_effect, audit_outcome, audit_carried, commit_resolution, close_with,
  keep_open, settle_verdict,
}
use openfederation_pds.Lifecycle.{
  phase, IsAway, IsAtLeast, IsQuiet, IsQuiet-then, Keeps, Keeps-then, Keeps-quiet, Keeps-put,
  Keeps-commit, Keeps-writes,
}
use openfederation_pds.Lifecycle.Applied.{phase-le}
use openfederation_pds.Lifecycle.Counted.{status-resolved_fields, lookup-resolved_fields}

-- A vote that opens the window of a decision was cast in the ordinary round.
window_of-round :
    (dates : Dates) (settings : Json) (outcome : Outcome) (d : Option DecisionRef) (now a : String)
    → window_of dates settings true outcome d now ≢ some (some a)
unfolding window_of
window_of-round dates settings approved none now a = ground arith
window_of-round dates settings approved (some d) now a = ground arith
window_of-round dates settings rejected d now a = ground arith

pub effect_of-LeavesAlone :
    (rows : List Row) (did rkey : String) (p : Fields) (outcome : Outcome) (window : Option String)
    → IsAway rkey p
    → LeavesAlone proposal_collection rkey (effect_ops (effect_of rows did (obj p) outcome window))
unfolding effect_of effect_ops effect_of_ops get
effect_of-LeavesAlone rows did rkey p approved none away =
    changed (proposed_change_ops rows did (obj p)) refl
  where
    changed :
        (c : ChangeOps)
        → proposed_change_ops rows did (obj p) ≡ c
        → LeavesAlone proposal_collection rkey (effect_ops (effect_of_ops c))
    changed (change ops) e = change-LeavesAlone rows did rkey (obj p) ops away e
    changed (unapplicable_change problem) e = tt
effect_of-LeavesAlone rows did rkey p approved (some a) away = tt
effect_of-LeavesAlone rows did rkey p rejected window away = tt

IsAway-resolved_fields :
    (rkey : String) (in_round : Bool) (outcome : Outcome) (d : Option DecisionRef)
    (window : Option String) (eff : Effect) (now : String) (p : Fields)
    → IsAway rkey p
    → IsAway rkey (resolved_fields in_round outcome d window eff now p)
unfolding get
IsAway-resolved_fields rkey in_round outcome d window eff now p h =
    rw
      (lookup-resolved_fields "targetCollection" in_round outcome d window eff now p
        (refl, refl, refl, refl, refl, refl))
      (rw
        (lookup-resolved_fields "targetRkey" in_round outcome d window eff now p
          (refl, refl, refl, refl, refl, refl))
        h)

phase-resolved_fields :
    (in_round : Bool) (outcome : Outcome) (d : Option DecisionRef) (eff : Effect) (now : String)
    (p : Fields)
    → phase (lookup "status" (resolved_fields in_round outcome d none eff now p)) ≡ 3
unfolding phase outcome_text is_str
phase-resolved_fields in_round approved d eff now p =
    rw (status-resolved_fields in_round approved d eff now p) refl
phase-resolved_fields in_round rejected d eff now p =
    rw (status-resolved_fields in_round rejected d eff now p) refl

module _ (dates : Dates) (repo : Repo) (show : Num → String) (did rkey now : String) (n : ℕ) where
  pub IsQuiet-audit_carried :
      (in_round : Bool) (outcome : Outcome)
      → IsQuiet (audit_carried dates repo show did rkey now in_round outcome)
  unfolding audit_carried audit_log
  IsQuiet-audit_carried in_round outcome w = ground arith

  pub IsQuiet-audit_outcome :
      (outcome : Outcome) (window : Option String) (eff : Effect)
      → IsQuiet (audit_outcome dates repo show did rkey now outcome window eff)
  unfolding audit_outcome audit_effect audit_log
  IsQuiet-audit_outcome outcome window eff w = ground arith

  commit_resolution-Keeps :
      (in_round : Bool) (outcome : Outcome) (verdict : Verdict) (window : Option String)
      (eff : Effect) (p : Fields)
      → n ≤ phase (lookup "status" p)
      → IsAway rkey p
      → LeavesAlone proposal_collection rkey (effect_ops eff)
      → Keeps repo did rkey n
          (commit_resolution dates repo show did rkey now in_round outcome verdict window eff p)
  unfolding commit_resolution
  commit_resolution-Keeps in_round outcome verdict window eff p h away alone w s =
      let answer : Recorded = record {
        status = lookup "status" p;
        is_applied = is_effect eff;
        apply_at = window;
        is_deferred = verdict.deferred;
      } in
      let carried = audit_carried dates repo show did rkey now in_round outcome in
      let audited = audit_outcome dates repo show did rkey now outcome window eff in
      Keeps-then repo did rkey n
        (apply_writes repo did
          (verdict.ops ++ proposal_write_op w.rows did rkey p ∷ effect_ops eff))
        (λ _. carried >>= λ _. audited >>= λ _. pure answer)
        (Keeps-commit repo did rkey n p verdict.ops (effect_ops eff) w.rows h away alone)
        (λ _. Keeps-quiet repo did rkey n (carried >>= λ _. audited >>= λ _. pure answer) (
          IsQuiet-then carried (λ _. audited >>= λ _. pure answer)
            (IsQuiet-audit_carried in_round outcome)
            (λ _.
              IsQuiet-then audited (λ _. pure answer) (IsQuiet-audit_outcome outcome window eff)
                (λ _ w. refl))))
        w s

  -- A window is only opened where the proposal may still be in an early phase.
  resolved-reached :
      (in_round : Bool) (outcome : Outcome) (d : Option DecisionRef) (window : Option String)
      (eff : Effect) (p : Fields)
      → n ≤ 3
      → ((a : String) → window ≡ some a → n ≤ 0)
      → n ≤ phase (lookup "status" (resolved_fields in_round outcome d window eff now p))
  resolved-reached in_round outcome d none eff p h first =
      rw (phase-resolved_fields in_round outcome d eff now p) h
  resolved-reached in_round outcome d (some a) eff p h first =
      let zero : n ≤ 0 = first a refl in omega (arith, zero)

  close_with-Keeps :
      (in_round : Bool) (p q : Fields) (outcome : Outcome) (verdict : Verdict)
      (window : Option (Option String))
      → n ≤ 3
      → ((a : String) → window ≡ some (some a) → n ≤ 0)
      → IsAway rkey p
      → IsAway rkey q
      → Keeps repo did rkey n
          (close_with dates repo show did rkey now in_round p q outcome verdict window)
  unfolding close_with
  close_with-Keeps in_round p q outcome verdict none h first away_p away_q w s = s
  close_with-Keeps in_round p q outcome verdict (some window) h first away_p away_q w s =
      let eff = effect_of w.rows did (obj p) outcome window in
      commit_resolution-Keeps in_round outcome verdict window eff
        (resolved_fields in_round outcome verdict.decision window eff now q)
        (resolved-reached in_round outcome verdict.decision window eff q h
          (λ a e. first a (ap some e)))
        (IsAway-resolved_fields rkey in_round outcome verdict.decision window eff now q away_q)
        (effect_of-LeavesAlone w.rows did rkey p outcome window away_p) w s

  keep_open-Keeps :
      (verdict : Verdict) (q : Fields)
      → n ≤ phase (lookup "status" q)
      → IsAway rkey q
      → Keeps repo did rkey n (keep_open dates repo show did rkey now verdict q)
  unfolding keep_open
  keep_open-Keeps verdict q h away w s =
      let answer : Recorded = record {
        status = lookup "status" q;
        is_applied = false;
        apply_at = none;
        is_deferred = verdict.deferred;
      } in
      Keeps-then repo did rkey n (put_proposal_record repo did rkey q) (λ _. pure answer)
        (Keeps-put repo did rkey n q h away) (λ _ w s. s) w s

  first_window :
      (in_round : Bool) (settings : Json) (outcome : Outcome) (d : Option DecisionRef) (a : String)
      → (in_round ≡ true) ⊎ (n ≤ 0)
      → window_of dates settings in_round outcome d now ≡ some (some a)
      → n ≤ 0
  first_window in_round settings outcome d a (inr zero) e = zero
  first_window in_round settings outcome d a (inl ordinary) e =
      absurd (window_of-round dates settings outcome d now a (rw ordinary at e))

  pub settle_verdict-Keeps :
      (in_round : Bool) (settings : Json) (p q : Fields) (verdict : Verdict) (o : Option Outcome)
      → n ≤ phase (lookup "status" q)
      → (in_round ≡ true) ⊎ (n ≤ 0)
      → IsAway rkey p
      → IsAway rkey q
      → Keeps repo did rkey n
          (settle_verdict dates repo show did rkey now in_round settings p q verdict o)
  unfolding settle_verdict
  settle_verdict-Keeps in_round settings p q verdict none h early away_p away_q w s =
      keep_open-Keeps verdict q h away_q w s
  settle_verdict-Keeps in_round settings p q verdict (some outcome) h early away_p away_q w s =
      close_with-Keeps in_round p q outcome verdict _
        (omega (arith, h, phase-le (lookup "status" q)))
        (λ a e. first_window in_round settings outcome verdict.decision a early e) away_p away_q w s

  written-Keeps :
      (input : VoteRecordInput) (key : String) (done : Option (Unit {0}))
      → Keeps repo did rkey n (written_or_audited input key done)
  unfolding written_or_audited audit_missing_vote_record audit_log
  written-Keeps input key none w s = s
  written-Keeps input key (some u) w s = s

  write_vote_record-Keeps :
      (unique : String → String → Option String) (input : VoteRecordInput) (key at : String)
      → Keeps repo did rkey n (write_vote_record repo unique input key at)
  unfolding write_vote_record put_record
  write_vote_record-Keeps unique input key at w s =
      let evidence =
        collect_eligibility_evidence unique w.rows input.community_did input.voter_did in
      elim (Bool-cases (repo.has_repo input.voter_did)) [
        | inl e ↦ rw e (
            written-Keeps input key _ _ (
              Keeps-writes repo did rkey n input.voter_did
                (write vote_collection key (vote_record_json input evidence at) ∷ []) (refl, tt) w
                s))
        | inr e ↦ rw e (written-Keeps input key none w s)
      ]

  pub write_vote_records-Keeps :
      (unique : String → String → Option String) (inputs : List (VoteRecordInput × String × String))
      (w : World)
      → IsAtLeast did rkey n w.rows
      → IsAtLeast did rkey n (write_vote_records repo unique inputs w).1.rows
  unfolding write_vote_records
  write_vote_records-Keeps unique [] w s = s
  write_vote_records-Keeps unique ((input, key, at) ∷ inputs) w s =
      write_vote_records-Keeps unique inputs _ (write_vote_record-Keeps unique input key at w s)
