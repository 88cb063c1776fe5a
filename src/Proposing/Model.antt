-- ===== src/Proposing/Model.antt =====
-- Setting the governance model directly, src/api/net.openfederation.community.setGovernanceModel.ts.
use openfederation_pds.Base.{
  Bool, true, not, ◌||◌, Option, none, some, String, str_eq, if◌then◌else◌,
}
use openfederation_pds.Json.{Json, obj, Fields, put, truthy}
use openfederation_pds.Rules.{settings_collection}
use openfederation_pds.Settings.{check_governance_settings}
use openfederation_pds.Index.{Repo, Act, ◌>>◌, pure, put_record, audit_log}
use openfederation_pds.Timelock.Merge.{community_settings_record}
use openfederation_pds.Enforcement.{GovernanceResult, write, enforce_governance}
use openfederation_pds.Authority.{
  RequestAuthority, RequestContext, resolve_governance_context, run_governed_mutation,
}
use openfederation_pds.Proposing.{
  ProposalAnswer, missing_fields, not_permitted, settings_not_found, bad_settings,
  governance_denied, refused_proposal, written_proposal,
}

-- `{ ...currentSettings, governanceModel, ...(governanceConfig ? { governanceConfig } : {}) }`
unfoldable pub with_model : Fields → Json → Json → Fields
with_model settings model c =
    let named = put "governanceModel" model settings in
    if truthy c then put "governanceConfig" c named else named

module _ {Request : Type 0} (registered : Option (RequestAuthority Request)) (request : Request)
    (repo : Repo) (did : String) where
  context_did : Option RequestContext → Option String
  context_did none = none
  context_did (some context) = some context.community_did

  unfoldable pub write_model : Fields → Json → Json → Act ProposalAnswer
  unfolding with_model run_governed_mutation
  write_model settings model c = do
    run_governed_mutation registered request
        (put_record repo did settings_collection "self" (obj (with_model settings model c)))
    audit_log "community.governance.setModel" did ""
    pure (written_proposal "self")

  unfoldable pub set_model_allowed :
      Json → Json → Json → Option GovernanceResult → Act ProposalAnswer
  unfolding write_model
  set_model_allowed settings model c none w = (none, w)
  set_model_allowed (obj settings) model c (some r) w =
      if not r.allowed
      then (some (refused_proposal (governance_denied r)), w)
      else if repo.has_key did
      then write_model settings model c w
      else (none, w)
  set_model_allowed _ model c (some r) w = (none, w)

  unfoldable pub set_model_on : Json → Json → Option Json → Act ProposalAnswer
  unfolding set_model_allowed context_did resolve_governance_context
  set_model_on model c none w = (some (refused_proposal settings_not_found), w)
  set_model_on model c (some settings) w =
      set_model_allowed settings model c
        (enforce_governance settings did settings_collection write
          (context_did (resolve_governance_context registered request)))
        w

  unfoldable pub set_governance_model : Bool → Json → Json → Act ProposalAnswer
  unfolding set_model_on
  set_governance_model permitted model c w =
      let checked = check_governance_settings model c true in
      if str_eq did "" || not (truthy model)
      then (some (refused_proposal missing_fields), w)
      else if not permitted
      then (some (refused_proposal not_permitted), w)
      else elim checked.problem [
        | some p ↦ (some (refused_proposal (bad_settings p)), w)
        | none ↦ set_model_on model checked.config (community_settings_record w.rows did) w
      ]
