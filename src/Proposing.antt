-- ===== src/Proposing.antt =====
-- Making a proposal, src/api/net.openfederation.community.createProposal.ts; Amending and Model are the
-- handlers beside it. The texts of a body are texts if they are given; a call is made at one instant of
-- the clock.
pub mod Amending
pub mod Model
pub mod Laws
pub mod Epoch
use openfederation_pds.Base.{
  ℕ, Bool, true, false, not, ◌&&◌, ◌||◌, Option, none, some, List, [], ◌∷◌, ◌++◌, String, str_eq,
  if◌then◌else◌, includes, length,
}
use openfederation_pds.Json.{
  Json, Num, whole, undefined, null, str, num, arr, obj, nil, Items, Fields, object, get, lookup,
  put, has, truthy, is_str, as_num, as_str, as_array, list_items, of_strings,
}
use openfederation_pds.Dates.{Dates, shifted}
use openfederation_pds.Rules.{
  proposal_collection, settings_collection, evidence_model_vote_records, for, config, day_ms,
}
use openfederation_pds.Settings.{SettingsProblem, Checked, check_governance_settings}
use openfederation_pds.Index.{
  Row, Repo, World, Act, ◌>>=◌, ◌>>◌, pure, throw, find_row, put_record, audit_log,
}
use openfederation_pds.Records.{VoteRecordInput, write_vote_record, optional_text}
use openfederation_pds.Timelock.Merge.{community_settings_record}
use openfederation_pds.Timelock.Apply.{put_proposal_record, settings_or_undefined}
use openfederation_pds.Enforcement.{GovernanceResult, Refusal, write, enforce_governance}
use openfederation_pds.Authority.{
  RequestAuthority, RequestContext, resolve_governance_context, run_governed_mutation,
}

abbrev pub default_ttl_days : ℕ
default_ttl_days = 7

-- `governanceConfig?.proposalTtlDays || DEFAULT_TTL_DAYS`, for a value that is a number if it is true.
unfoldable pub ttl_days : Json → Num
ttl_days settings =
    let days = config "proposalTtlDays" settings in
    if truthy days
    then elim (as_num days) [ none ↦ whole default_ttl_days | some n ↦ n ]
    else whole default_ttl_days

-- The time after that many days; `none` where it is no valid date.
unfoldable pub expiry : Dates → ℕ → Json → Option String
unfolding ttl_days
expiry dates t settings = elim (shifted t (ttl_days settings) day_ms) [
  | none ↦ none
  | some e ↦ some (dates.iso e)
]

pub data ProposalRefusal : Type 0 where
  missing_fields bad_action record_required governance_not_active not_permitted : ProposalRefusal
  check_failed proposal_not_found proposal_closed record_not_object : ProposalRefusal
  settings_not_found : ProposalRefusal
  bad_settings : SettingsProblem → ProposalRefusal
  governance_denied : GovernanceResult → ProposalRefusal

-- The key of the record that is written, or the refusal.
pub data ProposalAnswer : Type 0 where
  refused_proposal : ProposalRefusal → ProposalAnswer
  written_proposal : String → ProposalAnswer

unfoldable pub is_object_like : Json → Bool
is_object_like (obj fs) = true
is_object_like (arr xs) = true
is_object_like _ = false

-- The proposed settings as the check leaves them, and its problem.
unfoldable pub with_checked : Fields → Json → Fields
with_checked fs c = if has "governanceConfig" fs then put "governanceConfig" c fs else fs

unfoldable pub checked_settings : Json → Option SettingsProblem × Json
unfolding with_checked
checked_settings (obj fs) =
    let checked =
      check_governance_settings (lookup "governanceModel" fs) (lookup "governanceConfig" fs) true in
    (checked.problem, obj (with_checked fs checked.config))
checked_settings v = ((check_governance_settings undefined undefined true).problem, v)

unfoldable pub checked_proposal : String → String → Json → Option SettingsProblem × Json
unfolding checked_settings
checked_proposal collection action proposed =
    if str_eq collection settings_collection && str_eq action "write"
    then checked_settings proposed
    else (none, proposed)

-- `['simple-majority', 'on-chain'].includes(settings.governanceModel)`
unfoldable pub can_propose : Json → Bool
can_propose settings =
    is_str (get "governanceModel" settings) "simple-majority"
    || is_str (get "governanceModel" settings) "on-chain"

unfoldable pub optional_record : Json → List (String × Json)
optional_record proposed = if truthy proposed then ("proposedRecord", proposed) ∷ [] else []

unfoldable pub new_proposal :
    String → String → String → Json → String → Bool → String → String → Fields
unfolding optional_record
new_proposal collection rkey action proposed proposer seed now expires_at = object (
    ("targetCollection", str collection)
      ∷ ("targetRkey", str rkey)
      ∷ ("action", str action)
      ∷ optional_record proposed
    ++ ("proposedBy", str proposer)
      ∷ ("status", str "open")
      ∷ ("votesFor", of_strings (if seed then proposer ∷ [] else []))
      ∷ ("votesAgainst", of_strings [])
      ∷ ("createdAt", str now)
      ∷ ("expiresAt", str expires_at)
      ∷ ("resolvedAt", null)
      ∷ ("evidenceModel", str evidence_model_vote_records)
      ∷ ("cidChain", of_strings [])
      ∷ [])

module _ (dates : Dates) (repo : Repo) (unique : String → String → Option String)
    (check : String → Option Bool) (did proposer rkey vote_rkey : String) (t : ℕ) where
  seed_input : Fields → VoteRecordInput
  seed_input record_fields = record {
    voter_did = proposer;
    community_did = did;
    proposal_rkey = rkey;
    proposal_cid = repo.cid_for (obj record_fields);
    vote = for;
    cast_by = none;
    delegation = none;
  }

  -- The proposer's own vote is written if it can be recorded.
  unfoldable pub write_seed : Bool → Fields → Act (Option String)
  unfolding seed_input
  write_seed false fs = pure none
  write_seed true fs = write_vote_record repo unique (seed_input fs) vote_rkey (dates.iso t)

  unfoldable pub write_proposal : Bool → Fields → Act ProposalAnswer
  unfolding write_seed
  write_proposal seed fs = do
    put_record repo did proposal_collection rkey (obj fs)
    _ ← write_seed seed fs
    audit_log "community.proposal.create" did rkey
    pure (written_proposal rkey)

  -- `seed` is the answer of `canRecordVote`, `none` where the check fails.
  unfoldable pub propose_seeded :
      String → String → String → Json → Option Bool → Option String → Act ProposalAnswer
  unfolding write_proposal new_proposal
  propose_seeded collection target action proposed none expires =
      pure (refused_proposal check_failed)
  propose_seeded collection target action proposed (some seed) none = throw
  propose_seeded collection target action proposed (some seed) (some expires_at) =
      write_proposal seed
        (new_proposal collection target action proposed proposer seed (dates.iso t) expires_at)

  unfoldable pub propose_checked : Bool → String → String → String → Json → Act ProposalAnswer
  unfolding propose_seeded can_propose expiry settings_or_undefined
  propose_checked permitted collection target action proposed w =
      let settings = settings_or_undefined (community_settings_record w.rows did) in
      if not (can_propose settings)
      then (some (refused_proposal governance_not_active), w)
      else if not permitted
      then (some (refused_proposal not_permitted), w)
      else if not (repo.has_key did)
      then (none, w)
      else propose_seeded collection target action proposed (check proposer)
          (expiry dates t settings) w

  unfoldable pub create_proposal : Bool → String → String → String → Json → Act ProposalAnswer
  unfolding propose_checked checked_proposal is_object_like
  create_proposal permitted collection target action proposed w =
      let (problem, settled) = checked_proposal collection action proposed in
      if str_eq did "" || str_eq collection "" || str_eq target "" || str_eq action ""
      then (some (refused_proposal missing_fields), w)
      else if not (str_eq action "write" || str_eq action "delete")
      then (some (refused_proposal bad_action), w)
      else if str_eq action "write" && not (is_object_like proposed)
      then (some (refused_proposal record_required), w)
      else elim problem [
        | some p ↦ (some (refused_proposal (bad_settings p)), w)
        | none ↦ propose_checked permitted collection target action settled w
      ]
