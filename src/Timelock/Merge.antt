-- ===== src/Timelock/Merge.antt =====
-- What a passed proposal writes: `recordToWrite`, `proposalApplicationProblem`, `proposedChangeOps`.
pub mod Laws
use openfederation_pds.Base.{
  Bool, true, false, ◌&&◌, Option, none, some, List, [], ◌∷◌, String, str_eq, if◌then◌else◌,
}
use openfederation_pds.Json.{
  Json, null, obj, Fields, end, field, get, lookup, put, remove, assign, is_str, is_null, truthy,
}
use openfederation_pds.Rules.{settings_collection, text_or_empty}
use openfederation_pds.Settings.{SettingsProblem, Checked, check_governance_settings}
use openfederation_pds.Index.{Row, find_row, Op, write, delete}

-- The community's settings record, if it has one.
unfoldable pub community_settings_record : List Row → String → Option Json
community_settings_record rows did = elim (find_row did settings_collection "self" rows) [
  | none ↦ none
  | some row ↦ some row.rec
]

-- The loop over the entries of the proposed config: `null` removes a key, any other value sets it.
unfoldable pub merge_config : Fields → Fields → Fields
merge_config config end = config
merge_config config (field key value rest) =
    merge_config (if is_null value then remove key config else put key value config) rest

-- `governanceConfig` is merged a level deeper where both sides hold an object.
unfoldable pub with_config : Json → Json → Fields → Fields
unfolding merge_config
with_config (obj current) (obj proposed) merged =
    put "governanceConfig" (obj (merge_config current proposed)) merged
with_config _ _ merged = merged

unfoldable pub merge_settings : Fields → Fields → Fields
unfolding with_config
merge_settings current proposed =
    with_config (lookup "governanceConfig" current) (lookup "governanceConfig" proposed)
      (assign current proposed)

-- The proposed record over the current settings. The spread of a text or of an array, which has the
-- indices as its keys, is left out; any other value that is no object adds nothing.
unfoldable pub merged_over : Option Json → Json → Json
unfolding merge_settings
merged_over (some (obj current)) (obj proposed) = obj (merge_settings current proposed)
merged_over (some (obj current)) proposed = obj current
merged_over _ proposed = proposed

unfoldable pub record_to_write : List Row → String → Json → Json
unfolding merged_over community_settings_record
record_to_write rows did proposal =
    if is_str (get "targetCollection" proposal) settings_collection
      && is_str (get "targetRkey" proposal) "self"
    then merged_over (community_settings_record rows did) (get "proposedRecord" proposal)
    else get "proposedRecord" proposal

-- `proposal?.action === 'write' && proposal?.proposedRecord`
unfoldable pub proposes_write : Json → Bool
proposes_write proposal =
    is_str (get "action" proposal) "write" && truthy (get "proposedRecord" proposal)

unfoldable pub settings_problem : Json → Option SettingsProblem
settings_problem settings =
    (check_governance_settings (get "governanceModel" settings) (get "governanceConfig" settings)
      false).problem

unfoldable pub proposal_application_problem : List Row → String → Json → Option SettingsProblem
unfolding proposes_write record_to_write settings_problem
proposal_application_problem rows did proposal =
    if proposes_write proposal && is_str (get "targetCollection" proposal) settings_collection
    then settings_problem (record_to_write rows did proposal)
    else none

-- The answer of `proposedChangeOps`, which throws `UnapplicableProposalError` for a problem.
pub data ChangeOps : Type 0 where
  change : List Op → ChangeOps
  unapplicable_change : SettingsProblem → ChangeOps

unfoldable pub delete_ops : Option Row → String → String → List Op
delete_ops none collection rkey = []
delete_ops (some row) collection rkey = delete collection rkey ∷ []

-- The keys of the target are texts.
unfoldable pub proposed_change_ops : List Row → String → Json → ChangeOps
unfolding proposes_write proposal_application_problem record_to_write delete_ops
proposed_change_ops rows did proposal =
    let collection = text_or_empty (get "targetCollection" proposal) in
    let rkey = text_or_empty (get "targetRkey" proposal) in
    if proposes_write proposal
    then elim (proposal_application_problem rows did proposal) [
      | some problem ↦ unapplicable_change problem
      | none ↦ change (write collection rkey (record_to_write rows did proposal) ∷ [])
    ]
    else if is_str (get "action" proposal) "delete"
    then change (delete_ops (find_row did collection rkey rows) collection rkey)
    else change []
