-- ===== src/Records.antt =====
-- The signed records of votes and objections, and the evidence of eligibility that a vote carries:
-- src/governance/vote-records.ts, objection-records.ts and eligibility-evidence.ts. A record key and
-- the clock's text are arguments. The proofs are in the module below.
pub mod Laws
use openfederation_pds.Base.{
  Bool, true, false, Option, none, some, List, [], ◌∷◌, ◌++◌, String, ◌<>◌, str_eq, if◌then◌else◌,
  includes,
}
use openfederation_pds.Json.{
  Json, undefined, null, bool, str, obj, Fields, object, get, coalesce, as_str, as_array, strings,
}
use openfederation_pds.Rules.{
  VoteChoice, for, against, vote_collection, objection_collection, proposal_collection,
  proposal_uri, governance_write_permission, legacy_role_permissions,
}
use openfederation_pds.Index.{
  Row, Repo, World, Act, ◌>>=◌, ◌>>◌, pure, find_row, put_record, audit_log,
}
use openfederation_pds.Settings.{role_collection}
use openfederation_pds.Electorate.{member_collection, text_field}

pub record StrongRef : Type 0 where
  pub uri : String
  pub cid : String

unfoldable pub ref_json : StrongRef → Json
ref_json r = obj (object (("uri", str r.uri) ∷ ("cid", str r.cid) ∷ []))

-- A key of an object literal that is left out where there is no value: `...(v ? { k: v } : {})`.
unfoldable pub optional_text : String → Option String → List (String × Json)
optional_text key none = []
optional_text key (some s) = if str_eq s "" then [] else (key, str s) ∷ []

unfoldable pub optional_ref : String → Option StrongRef → List (String × Json)
unfolding ref_json
optional_ref key none = []
optional_ref key (some r) = (key, ref_json r) ∷ []

unfoldable pub row_ref : String → Row → Json
unfolding ref_json
row_ref community_did row = ref_json (record {
  uri = "at://" <> (community_did <> ("/" <> (row.collection <> ("/" <> row.rkey))));
  cid = row.cid;
})

unfoldable pub empty_evidence : String → Json
empty_evidence unresolved = obj (
    object (
      ("member", null)
      ∷ ("roleRecord", null)
      ∷ ("roleName", null)
      ∷ ("grantedGovernanceWrite", bool false)
      ∷ ("unresolved", str unresolved)
      ∷ []))

-- The evidence by the role record that the member record names.
unfoldable pub role_evidence : String → Row → Option Row → Json
unfolding row_ref
role_evidence community_did member none = obj (
    object (
      ("member", row_ref community_did member)
      ∷ ("roleRecord", null)
      ∷ ("roleName", coalesce (get "role" member.rec) null)
      ∷ ("grantedGovernanceWrite", bool false)
      ∷ ("unresolved", str "role-record-missing")
      ∷ []))
role_evidence community_did member (some role) = obj (
    object (
      ("member", row_ref community_did member)
      ∷ ("roleRecord", row_ref community_did role)
      ∷ ("roleName", coalesce (get "name" role.rec) (coalesce (get "role" member.rec) null))
      ∷ (
        "grantedGovernanceWrite",
        bool (
            includes governance_write_permission (strings (as_array (get "permissions" role.rec)))),
      )
      ∷ []))

-- `LEGACY_ROLE_PERMISSIONS[roleName] ?? []`
unfoldable pub legacy_permissions : Json → List String
legacy_permissions (str role) = legacy_role_permissions role
legacy_permissions _ = []

-- The evidence by the name of a built-in role.
unfoldable pub named_evidence : String → Row → Json
unfolding row_ref legacy_permissions
named_evidence community_did member =
    let role_name = coalesce (get "role" member.rec) (str "member") in
    obj (
      object (
        ("member", row_ref community_did member)
        ∷ ("roleRecord", null)
        ∷ ("roleName", role_name)
        ∷ (
          "grantedGovernanceWrite",
          bool (includes governance_write_permission (legacy_permissions role_name)),
        )
        ∷ []))

unfoldable pub assigned_evidence : List Row → String → Row → Option String → Json
unfolding role_evidence named_evidence
assigned_evidence rows community_did member none = named_evidence community_did member
assigned_evidence rows community_did member (some role_rkey) =
    if str_eq role_rkey ""
    then named_evidence community_did member
    else role_evidence community_did member (find_row community_did role_collection role_rkey rows)

unfoldable pub member_evidence : List Row → String → Option Row → Json
unfolding empty_evidence assigned_evidence text_field
member_evidence rows community_did none = empty_evidence "no-member-record"
member_evidence rows community_did (some member) =
    assigned_evidence rows community_did member (text_field "roleRkey" member.rec)

-- The row of a member: `unique` gives the record key that the table of unique members has.
unfoldable pub member_row :
    (String → String → Option String) → List Row → String → String → Option Row
member_row unique rows community_did voter_did = elim (unique community_did voter_did) [
  | none ↦ none
  | some rkey ↦ find_row community_did member_collection rkey rows
]

unfoldable pub collect_eligibility_evidence :
    (String → String → Option String) → List Row → String → String → Json
unfolding member_evidence member_row
collect_eligibility_evidence unique rows community_did voter_did =
    member_evidence rows community_did (member_row unique rows community_did voter_did)

pub record VoteRecordInput : Type 0 where
  pub voter_did : String
  pub community_did : String
  pub proposal_rkey : String
  pub proposal_cid : String
  pub vote : VoteChoice
  pub cast_by : Option String
  pub delegation : Option StrongRef

unfoldable pub choice_json : VoteChoice → Json
choice_json for = str "for"
choice_json against = str "against"

unfoldable pub vote_record_json : VoteRecordInput → Json → String → Json
unfolding optional_text optional_ref choice_json ref_json
vote_record_json input eligibility now = obj (
    object (
      ("$type", str vote_collection)
        ∷ ("community", str input.community_did)
        ∷ (
          "proposal",
          ref_json (record {
            uri = proposal_uri input.community_did input.proposal_rkey;
            cid = input.proposal_cid;
          }),
        )
        ∷ ("proposalCollection", str proposal_collection)
        ∷ ("proposalRkey", str input.proposal_rkey)
        ∷ ("vote", choice_json input.vote)
        ∷ optional_text "castBy" input.cast_by
      ++ optional_ref "delegation" input.delegation
      ++ ("eligibility", eligibility) ∷ ("createdAt", str now) ∷ []))

unfoldable pub audit_missing_vote_record : VoteRecordInput → Act (Unit {0})
audit_missing_vote_record input =
    audit_log "community.proposal.vote.recordFailed" input.community_did input.proposal_rkey

-- A commit that fails is audited and not raised.
unfoldable pub written_or_audited :
    VoteRecordInput → String → Option (Unit {0}) → Act (Option String)
unfolding audit_missing_vote_record
written_or_audited input rkey (some u) = pure (some rkey)
written_or_audited input rkey none = do audit_missing_vote_record input; pure none

-- The answer is the key of the record that was written.
unfoldable pub write_vote_record :
    Repo
    → (String → String → Option String)
    → VoteRecordInput
    → String
    → String
    → Act (Option String)
unfolding collect_eligibility_evidence vote_record_json written_or_audited
write_vote_record repo unique input rkey now w =
    let evidence = collect_eligibility_evidence unique w.rows input.community_did input.voter_did in
    let (done, w') =
      put_record repo input.voter_did vote_collection rkey (vote_record_json input evidence now)
        w in
    if repo.has_repo input.voter_did
    then written_or_audited input rkey done w'
    else written_or_audited input rkey none w

pub record ObjectionRecordInput : Type 0 where
  pub objector_did : String
  pub community_did : String
  pub proposal_rkey : String
  pub proposal_cid : String
  pub decision : StrongRef
  pub reason : Option String

unfoldable pub objection_record_json : ObjectionRecordInput → String → Json
unfolding optional_text ref_json
objection_record_json input created_at = obj (
    object (
      ("$type", str objection_collection)
        ∷ ("community", str input.community_did)
        ∷ (
          "proposal",
          ref_json (record {
            uri = proposal_uri input.community_did input.proposal_rkey;
            cid = input.proposal_cid;
          }),
        )
        ∷ ("proposalCollection", str proposal_collection)
        ∷ ("proposalRkey", str input.proposal_rkey)
        ∷ ("decision", ref_json input.decision)
        ∷ optional_text "reason" input.reason
      ++ ("createdAt", str created_at) ∷ []))

-- A failure is raised: an objection without a record is none.
unfoldable pub write_objection_record :
    Repo → ObjectionRecordInput → String → String → Act (Unit {0})
unfolding objection_record_json
write_objection_record repo input rkey created_at =
    put_record repo input.objector_did objection_collection rkey
      (objection_record_json input created_at)

-- `canRecordVote` and `canRecordObjection`: whether the account has a repository to sign in.
unfoldable pub can_record : Repo → String → Bool
can_record repo did = repo.has_repo did

unfoldable pub audit_unrecordable_vote : VoteRecordInput → Act (Unit {0})
unfolding audit_missing_vote_record
audit_unrecordable_vote input = audit_missing_vote_record input

unfoldable pub add_written : Option String → List String → List String
add_written none keys = keys
add_written (some key) keys = key ∷ keys

-- `writeVoteRecord` never throws.
unfoldable pub key_of : Option (Option String) → Option String
key_of none = none
key_of (some key) = key

-- The records of a vote and of the delegated votes that it carries, in turn; each input has the record
-- key and the time of its write. The answer is the keys that were written.
unfoldable pub write_vote_records :
    Repo
    → (String → String → Option String)
    → List (VoteRecordInput × String × String)
    → World
    → List String × World
unfolding write_vote_record add_written key_of
write_vote_records repo unique [] w = ([], w)
write_vote_records repo unique ((input, rkey, now) ∷ inputs) w =
    let (written, w') = write_vote_record repo unique input rkey now w in
    let (keys, w2) = write_vote_records repo unique inputs w' in
    (add_written (key_of written) keys, w2)
