-- ===== src/Records/Laws.antt =====
-- The records that are written and the checks that count them; the evidence of eligibility and the
-- electorate.
use openfederation_pds.Base.{
  inl, inr, Bool-cases, ◌≡◌, refl, sym, ap, ◌↔◌, true, false, Option, none, some, List, String,
  str_eq, eq_iff, text_lt, arith, includes, ◌≢◌,
}
use openfederation_pds.Json.{
  undefined, null, num, arr, coalesce, Json, bool, str, obj, get, lookup, as_str,
}
use openfederation_pds.Rules.{
  governance_write_permission, VoteEligibility, VoteChoice, for, against, countable_vote,
  check_vote_record, before_epoch, proposal_uri, ObjectionEligibility, check_objection_record,
  countable_objection, legacy_role_permissions, text_or_empty,
}
use openfederation_pds.Rules.Evidence.{
  check_vote_record_iff, check_objection_record_iff, IsAddressed, choice_text, before_epoch_sound,
}
use openfederation_pds.Index.{Row, find_row}
use openfederation_pds.Settings.{role_collection}
use openfederation_pds.Electorate.{
  is_eligible, permissions_of, named_role_permissions, role_row_permissions, text_field,
}
use openfederation_pds.Records.{
  VoteRecordInput, ObjectionRecordInput, vote_record_json, objection_record_json, member_evidence,
  assigned_evidence, role_evidence, named_evidence, legacy_permissions, optional_text, optional_ref,
  choice_json, ref_json,
}

choice_json_text : (vote : VoteChoice) → choice_json vote ≡ str (choice_text vote)
unfolding choice_json
choice_json_text for = refl
choice_json_text against = refl

created_at_vote :
    (input : VoteRecordInput) (evidence : Json) (now : String)
    → get "createdAt" (vote_record_json input evidence now) ≡ str now
unfolding get lookup vote_record_json optional_text optional_ref
created_at_vote input evidence now = ground arith

-- A vote record is counted as it was cast: provided that it is for the proposal that is judged, the
-- state of the proposal is one that is known and the time is not before the epoch, the check of the record that is written gives the choice, the state
-- and the time that were written.
pub written_vote_counts :
    (input : VoteRecordInput) (evidence : Json) (now : String) (ctx : VoteEligibility)
    → ctx.proposal_uri ≡ proposal_uri input.community_did input.proposal_rkey
    → includes input.proposal_cid ctx.known_cids ≡ true
    → before_epoch ctx.epoch now ≡ false
    → check_vote_record (vote_record_json input evidence now) ctx
      ≡ countable_vote input.vote input.proposal_cid now
unfolding get lookup vote_record_json ref_json text_or_empty
written_vote_counts input evidence now ctx same known current =
    (check_vote_record_iff (vote_record_json input evidence now) ctx input.vote input.proposal_cid
        now).1
      (record {
        chosen = choice_json_text input.vote;
        proposal = ap str (sym same);
        collection = refl;
        state = refl;
        known = known;
        created = rw (created_at_vote input evidence now, text_or_empty) refl;
        current = before_epoch_sound ctx.epoch now current;
      })

created_at_objection :
    (input : ObjectionRecordInput) (at : String)
    → get "createdAt" (objection_record_json input at) ≡ str at
unfolding get lookup objection_record_json optional_text
created_at_objection input at = ground arith

-- An objection record that is written for the proposal and the decision that are judged is counted exactly
-- when its time is not empty, not before the resolution and before the instant of application.
pub written_objection_counts :
    (input : ObjectionRecordInput) (at : String) (ctx : ObjectionEligibility)
    → ctx.proposal_uri ≡ proposal_uri input.community_did input.proposal_rkey
    → ctx.decision_uri ≡ input.decision.uri
    → ctx.decision_cid ≡ input.decision.cid
    → (check_objection_record (objection_record_json input at) ctx ≡ countable_objection at)
      ↔ ((at ≢ "") × (text_lt at ctx.resolved_at ≡ false) × (text_lt at ctx.apply_at ≡ true))
unfolding get lookup objection_record_json ref_json text_or_empty
written_objection_counts input at ctx same uri cid =
    let i = check_objection_record_iff (objection_record_json input at) ctx at in
    let addressed : IsAddressed (objection_record_json input at) ctx = record {
      proposal = ap str (sym same);
      collection = refl;
      decision = ap str (sym uri);
      state = ap str (sym cid);
    } in
    let created : text_or_empty (get "createdAt" (objection_record_json input at)) ≡ at =
      rw (created_at_objection input at, text_or_empty) refl in
    (
      λ h. let (_, _, full, later, before) = i.0 h in (full, later, before),
      λ (full, later, before). i.1 (addressed, created, full, later, before),
    )

named_agrees :
    (v : Json)
    → includes governance_write_permission (legacy_permissions (coalesce v (str "member")))
      ≡ includes governance_write_permission (named_role_permissions (as_str v))
unfolding legacy_permissions coalesce named_role_permissions as_str legacy_role_permissions includes
named_agrees undefined = refl
named_agrees null = refl
named_agrees (bool b) = refl
named_agrees (num n) = refl
named_agrees (arr xs) = refl
named_agrees (obj fs) = refl
named_agrees (str s) = elim (Bool-cases (str_eq s "")) [
  | inl e ↦ rw ((eq_iff s "").0 e) refl
  | inr e ↦ rw e refl
]

granted_by_role :
    (did : String) (member : Row) (role : Option Row)
    → get "grantedGovernanceWrite" (role_evidence did member role)
      ≡ bool (includes governance_write_permission (role_row_permissions role))
unfolding role_evidence role_row_permissions get lookup includes
granted_by_role did member none = refl
granted_by_role did member (some role) = refl

granted_by_name :
    (did : String) (member : Row)
    → get "grantedGovernanceWrite" (named_evidence did member)
      ≡ bool (
          includes governance_write_permission
            (named_role_permissions (text_field "role" member.rec)))
unfolding named_evidence get lookup text_field
granted_by_name did member = ap bool (named_agrees (get "role" member.rec))

granted_by_assignment :
    (rows : List Row) (did : String) (member : Row) (role_rkey : Option String)
    → get "grantedGovernanceWrite" (assigned_evidence rows did member role_rkey)
      ≡ bool (includes governance_write_permission (permissions_of rows did role_rkey member.rec))
unfolding assigned_evidence permissions_of
granted_by_assignment rows did member none = granted_by_name did member
granted_by_assignment rows did member (some role_rkey) = elim (Bool-cases (str_eq role_rkey "")) [
  | inl e ↦ rw e (granted_by_name did member)
  | inr e ↦ rw e (granted_by_role did member (find_row did role_collection role_rkey rows))
]

-- The evidence that a vote carries grants the right to vote exactly where the count of the electorate
-- counts the member.
pub evidence_agrees :
    (rows : List Row) (did : String) (member : Row)
    → get "grantedGovernanceWrite" (member_evidence rows did (some member))
      ≡ bool (is_eligible rows did member.rec)
unfolding member_evidence is_eligible
evidence_agrees rows did member =
    granted_by_assignment rows did member (text_field "roleRkey" member.rec)
