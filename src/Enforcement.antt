-- ===== src/Enforcement.antt =====
-- Which direct writes the governance model of a community allows, src/governance/enforcement.ts. The
-- attestor that may be asked first changes no answer, and is left out.
pub mod Laws
use openfederation_pds.Base.{
  Bool, true, false, not, ◌&&◌, ◌||◌, Option, none, some, List, [], ◌∷◌, ◌++◌, map, String, str_eq,
  if◌then◌else◌, includes,
}
use openfederation_pds.Json.{
  Json, undefined, null, bool, num, str, arr, obj, Items, nil, cons, items_list, get, truthy,
  is_str, as_str, strings,
}
use openfederation_pds.Rules.{settings_collection}
use openfederation_pds.Electorate.{member_collection}
use openfederation_pds.Settings.{mandatory_protected_collections, qualify, all_strings}

abbrev pub default_protected : List String
default_protected =
    mandatory_protected_collections
    ++ member_collection ∷ "net.openfederation.community.profile"
      ∷ "net.openfederation.community.attestation" ∷ []

pub data Action : Type 0 where
  write delete : Action

-- What the message of a refusal says.
pub data Refusal : Type 0 where
  settings_cannot_be_deleted simple_majority_governs on_chain_governs : Refusal
  on_chain_governs_settings : Refusal
  unrecognized_model : Json → Refusal

pub record GovernanceResult : Type 0 where
  pub allowed : Bool
  pub requires_proposal : Bool
  pub reason : Option Refusal
  pub governance_model : Option Json

-- A set of names as a list: `[...new Set([...MANDATORY_PROTECTED, ...names])]` up to repetition.
-- `none` where a name is no text and the call throws; a text of some length has no `map` either.
unfoldable pub protected_collections : Json → Option (List String)
unfolding all_strings strings items_list qualify truthy get
protected_collections (arr nil) = some default_protected
protected_collections (arr (cons v vs)) =
    if all_strings (v ∷ items_list vs)
    then some (mandatory_protected_collections ++ map qualify (strings (v ∷ items_list vs)))
    else none
protected_collections (str s) = if str_eq s "" then some default_protected else none
protected_collections (obj fs) =
    if truthy (get "length" (obj fs)) then none else some default_protected
protected_collections _ = some default_protected

-- The collection whose writes and deletes are operations of membership and no policy.
unfoldable pub is_exempt : String → Action → Bool
is_exempt collection action = str_eq collection member_collection

-- `settings?.governanceModel || 'benevolent-dictator'`
unfoldable pub model_or_default : Json → Json
unfolding truthy
model_or_default v = if truthy v then v else str "benevolent-dictator"

unfoldable pub refuse : Refusal → Json → GovernanceResult
refuse reason model = record {
  allowed = false;
  requires_proposal = true;
  reason = some reason;
  governance_model = some model;
}

unfoldable pub permit : Option Json → GovernanceResult
permit model = record {
  allowed = true;
  requires_proposal = false;
  reason = none;
  governance_model = model;
}

-- The switch on the model of a protected collection.
unfoldable pub by_model : String → Bool → Json → GovernanceResult
unfolding refuse permit is_str
by_model collection delegated model =
    if is_str model "benevolent-dictator"
    then permit (some model)
    else if is_str model "simple-majority"
    then refuse simple_majority_governs model
    else if is_str model "on-chain"
    then (if delegated && not (str_eq collection settings_collection)
        then permit (some model)
        else refuse (if delegated then on_chain_governs_settings else on_chain_governs) model)
    else refuse (unrecognized_model model) model

-- `requestContext && requestContext.communityDid === communityDid`
unfoldable pub is_delegated : Option String → String → Bool
is_delegated none community_did = false
is_delegated (some context_did) community_did = str_eq context_did community_did

abbrev pub is_delete : Action → Bool
is_delete delete = true
is_delete write = false

unfoldable pub enforce_protected :
    Json → String → Action → Bool → Option (List String) → Option GovernanceResult
unfolding by_model is_exempt model_or_default permit
enforce_protected settings collection action delegated none = none
enforce_protected settings collection action delegated (some protected) = some (
    if not (includes collection protected)
    then permit none
    else if is_exempt collection action
    then permit none
    else by_model collection delegated (model_or_default (get "governanceModel" settings)))

-- `enforceGovernance(communityDid, collection, action, requestContext)` where `settings` is the
-- community's settings record (`undefined` if it has none) and the context is the community that the
-- request is authorized to act for. `none` where the call throws.
unfoldable pub enforce_governance :
    Json → String → String → Action → Option String → Option GovernanceResult
unfolding enforce_protected protected_collections is_delegated
enforce_governance settings community_did collection action context =
    if str_eq collection settings_collection && is_delete action
    then some (record {
      allowed = false;
      requires_proposal = false;
      reason = some settings_cannot_be_deleted;
      governance_model = none;
    })
    else enforce_protected settings collection action (is_delegated context community_did)
        (protected_collections (get "protectedCollections" (get "governanceConfig" settings)))
