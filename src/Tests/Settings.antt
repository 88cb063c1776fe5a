-- ===== src/Tests/Settings.antt =====
-- Runs of src/governance/settings-rules.ts and enforcement.ts, and their theorems at concrete inputs.
use openfederation_pds.Base.{
  ◌≡◌, refl, none, some, [], ◌∷◌, String, true, false, List, str_eq, includes, if◌then◌else◌,
}
use openfederation_pds.Json.{
  Json, Items, nil, cons, null, whole, str, num, arr, obj, Fields, object, get, lookup, items_list,
  of_strings, truthy, is_str, is_finite, is_integer, lt_nat, le_nat,
}
use openfederation_pds.Settings.{
  check_governance_settings, check_known_model, check_config, check_voting_config, check_quorum,
  check_objection_rules, check_protected, known_model, is_voting_model, is_chain_id,
  check_anchoring, or_else, require, number_is, optional_number, review_ok, is_text, strip_removals,
  has_null, without_nulls, all_strings, role_collection, mandatory_protected_collections,
}
use openfederation_pds.Settings.Accepted.{IsReadAsStated, accepted_read}
use openfederation_pds.Settings.Normalized.{AreQualified, AllIn, check_protected_normalizes}
use openfederation_pds.Rules.{settings_collection}
use openfederation_pds.Enforcement.{
  write, enforce_governance, enforce_protected, protected_collections, is_delegated, is_exempt,
  model_or_default, by_model, permit, refuse, simple_majority_governs, GovernanceResult,
}
use openfederation_pds.Enforcement.Laws.{GovernsByVote, settings_protected, roles_protected}

abbrev rules_config : Fields
rules_config = object (
    ("quorum", num (whole 3))
    ∷ ("voterRole", str "member")
    ∷ ("timelockHours", num (whole 48))
    ∷ ("objectionReview", str "none")
    ∷ ("objectionThreshold", null)
    ∷ [])

abbrev simple_majority : Json
simple_majority = obj (
    object
      (("governanceModel", str "simple-majority") ∷ ("governanceConfig", obj rules_config) ∷ []))

config_stated : get "governanceConfig" simple_majority ≡ obj rules_config
unfolding get lookup
config_stated = refl

model_known : known_model (get "governanceModel" simple_majority) ≡ some "simple-majority"
unfolding get lookup known_model includes
model_known = refl

votes : is_voting_model "simple-majority" ≡ true
unfolding is_voting_model includes
votes = refl

accepted :
    (check_governance_settings
      (get "governanceModel" simple_majority)
      (get "governanceConfig" simple_majority)
      false).problem
    ≡ none
unfolding check_governance_settings check_known_model check_config check_voting_config check_quorum
    check_objection_rules check_protected known_model is_voting_model includes get lookup or_else
    require number_is optional_number review_ok is_text strip_removals has_null without_nulls truthy
    is_str is_finite is_integer lt_nat le_nat check_anchoring is_chain_id
accepted = refl

accepted_read_example : IsReadAsStated simple_majority
accepted_read_example =
    accepted_read simple_majority rules_config "simple-majority" false config_stated model_known
      votes accepted

abbrev named : Items
named = cons (str "profile") (cons (str settings_collection) nil)

abbrev protecting : Fields
protecting = object (("quorum", num (whole 3)) ∷ ("protectedCollections", arr named) ∷ [])

named_there : lookup "protectedCollections" protecting ≡ arr named
unfolding lookup
named_there = refl

named_texts : all_strings (items_list named) ≡ true
unfolding all_strings items_list
named_texts = refl

check_protected_normalizes_example :
    let (problem, c') =
      check_protected protecting true (lookup "protectedCollections" protecting) in
    (q : List String) × (problem ≡ none)
    × (lookup "quorum" c' ≡ (
        if str_eq "protectedCollections" "quorum"
        then of_strings q
        else lookup "quorum" protecting))
    × AreQualified q
    × AllIn mandatory_protected_collections q
    × (check_protected c' false (lookup "protectedCollections" c') ≡ (none, c'))
check_protected_normalizes_example =
    check_protected_normalizes protecting named "quorum" named_there named_texts

-- A write of the settings record of a community that governs by simple majority.
refused : GovernanceResult
refused = refuse simple_majority_governs (str "simple-majority")

settings_refused :
    enforce_governance simple_majority "did:c" settings_collection write (some "did:c")
    ≡ some refused
unfolding refused enforce_governance enforce_protected protected_collections is_delegated is_exempt
    model_or_default by_model includes get lookup truthy is_str
settings_refused = refl

by_vote : GovernsByVote (get "governanceModel" simple_majority)
unfolding get lookup truthy is_str
by_vote = (refl, refl)

settings_protected_example : refused.allowed ≡ false
settings_protected_example =
    settings_protected simple_majority "did:c" write (some "did:c") refused by_vote settings_refused

abbrev on_chain : Json
on_chain = obj (object (("governanceModel", str "on-chain") ∷ []))

allowed_role : GovernanceResult
allowed_role = permit (some (str "on-chain"))

role_written :
    enforce_governance on_chain "did:c" role_collection write (some "did:c") ≡ some allowed_role
unfolding allowed_role enforce_governance enforce_protected protected_collections is_delegated
    is_exempt model_or_default by_model includes get lookup truthy is_str
role_written = refl

by_chain : GovernsByVote (get "governanceModel" on_chain)
unfolding get lookup truthy is_str
by_chain = (refl, refl)

role_allowed : allowed_role.allowed ≡ true
unfolding allowed_role permit
role_allowed = refl

abbrev community : String
community = "did:c"

roles_protected_example :
    (get "governanceModel" on_chain ≡ str "on-chain") × (some community ≡ some community)
roles_protected_example =
    roles_protected on_chain "did:c" write (some "did:c") allowed_role by_chain role_written
      role_allowed

-- A proposal that drops the timelock and sets the quorum.
abbrev current_settings : Fields
current_settings =
    object
      (("governanceModel", str "simple-majority") ∷ ("governanceConfig", obj rules_config) ∷ [])

abbrev proposed_config : Fields
proposed_config = object (("timelockHours", null) ∷ ("quorum", num (whole 5)) ∷ [])

abbrev proposed_settings : Fields
proposed_settings = object (("governanceConfig", obj proposed_config) ∷ [])
