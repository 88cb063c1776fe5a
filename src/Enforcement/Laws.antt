-- ===== src/Enforcement/Laws.antt =====
-- Direct writes of the settings record and of role records under the models of governance.
use openfederation_pds.Base.{
  ◌≡◌, refl, ap, ◌≢◌, ◌⊎◌, inl, inr, true, false, Option, some, none, List, [], ◌∷◌, ◌++◌, map,
  String, eq_iff, arith, includes, Option-cases,
}
use openfederation_pds.Json.{
  Json, str, arr, obj, nil, cons, get, is_str, is_str_iff, truthy, items_list, strings,
}
use openfederation_pds.Rules.{settings_collection}
use openfederation_pds.Electorate.{member_collection}
use openfederation_pds.Settings.{mandatory_protected_collections, role_collection, qualify}
use openfederation_pds.Enforcement.{
  Action, GovernanceResult, protected_collections, is_exempt, model_or_default, by_model,
  is_delegated, enforce_protected, enforce_governance, refuse, permit,
}

abbrev IsMandatory : String → Type 0
IsMandatory collection = (collection ≡ settings_collection) ⊎ (collection ≡ role_collection)

mandatory-includes :
    (c : String) (rest : List String)
    → IsMandatory c
    → includes c (mandatory_protected_collections ++ rest) ≡ true
unfolding includes
mandatory-includes c rest h = ground (arith, eq_iff settings_collection c, eq_iff role_collection c)

default_rest : List String
default_rest =
    member_collection ∷ "net.openfederation.community.profile"
    ∷ "net.openfederation.community.attestation" ∷ []

protected-mandatory :
    (v : Json) (c : String) (names : List String)
    → IsMandatory c
    → protected_collections v ≡ some names
    → includes c names ≡ true
unfolding protected_collections default_rest
protected-mandatory (arr nil) c names m h = ground (arith, mandatory-includes c default_rest m)
protected-mandatory (arr (cons v vs)) c names m h =
    ground (arith, mandatory-includes c (map qualify (strings (v ∷ items_list vs))) m)
protected-mandatory (str s) c names m h = ground (arith, mandatory-includes c default_rest m)
protected-mandatory (obj fs) c names m h = ground (arith, mandatory-includes c default_rest m)
protected-mandatory v c names m h = ground (arith, mandatory-includes c default_rest m)

settings≢member : settings_collection ≢ member_collection
settings≢member = λ e. cc ((eq_iff settings_collection member_collection).1 e)

role≢member : role_collection ≢ member_collection
role≢member = λ e. cc ((eq_iff role_collection member_collection).1 e)

mandatory-not-exempt : (c : String) (a : Action) → IsMandatory c → is_exempt c a ≡ false
unfolding is_exempt
mandatory-not-exempt c a h =
    ground (arith, eq_iff c member_collection, settings≢member, role≢member)

-- The model that a record names is neither absent nor `benevolent-dictator`.
abbrev pub GovernsByVote : Json → Type 0
GovernsByVote model = (truthy model ≡ true) × (is_str model "benevolent-dictator" ≡ false)

enforced :
    (settings : Json) (did collection : String) (action : Action) (context : Option String)
    (r : GovernanceResult)
    → IsMandatory collection
    → enforce_governance settings did collection action context ≡ some r
    → (r.allowed ≡ false)
      ⊎ (r
          ≡ by_model collection
              (is_delegated context did)
              (model_or_default (get "governanceModel" settings)))
unfolding enforce_governance enforce_protected
enforced settings did collection action context r m h =
    elim (Option-cases
      (protected_collections (get "protectedCollections" (get "governanceConfig" settings)))) [
        | inl thrown ↦ ground arith
        | inr (names, e) ↦ ground (
          arith,
          protected-mandatory (get "protectedCollections" (get "governanceConfig" settings))
              collection names m e,
          mandatory-not-exempt collection action m,
        )
      ]

-- Under any model that is named and is not `benevolent-dictator`, known or not, no direct write or
-- delete of the settings record is allowed, whatever authority the request carries and whatever
-- collections the settings list.
pub settings_protected :
    (settings : Json) (did : String) (action : Action) (context : Option String)
    (r : GovernanceResult)
    → GovernsByVote (get "governanceModel" settings)
    → enforce_governance settings did settings_collection action context ≡ some r
    → r.allowed ≡ false
unfolding by_model model_or_default refuse permit
settings_protected settings did action context r g h =
    ground (arith, enforced settings did settings_collection action context r (inl refl) h)

delegated-eq :
    (context : Option String) (did : String) → is_delegated context did ≡ true → context ≡ some did
unfolding is_delegated
delegated-eq none did h = cc
delegated-eq (some c) did h = ap some ((eq_iff c did).0 h)

-- Under any model that is named and is not `benevolent-dictator`, a direct write or delete of a role record is allowed only if the model is
-- `on-chain` and the request is authorized to act for this community.
pub roles_protected :
    (settings : Json) (did : String) (action : Action) (context : Option String)
    (r : GovernanceResult)
    → GovernsByVote (get "governanceModel" settings)
    → enforce_governance settings did role_collection action context ≡ some r
    → r.allowed ≡ true
    → (get "governanceModel" settings ≡ str "on-chain") × (context ≡ some did)
unfolding by_model model_or_default refuse permit is_delegated
roles_protected settings did action context r g h ok = ground (
  arith,
  enforced settings did role_collection action context r (inr refl) h,
  is_str_iff (get "governanceModel" settings) "on-chain",
  delegated-eq context did,
)
