-- ===== src/Settings.antt =====
-- What a community's governance settings may say, src/governance/settings-rules.ts. The check
-- returns the first problem and the settings as the caller's object stands after the call.
pub mod Accepted
pub mod Normalized
use Prim.Native.Char.{code}
use openfederation_pds.Base.{
  ℕ, Bool, true, false, not, ◌&&◌, ◌||◌, Option, none, some, List, [], ◌∷◌, ◌++◌, map, String, ◌<>◌,
  str_eq, starts_with, leb, ◌==◌, if◌then◌else◌, includes,
}
use openfederation_pds.Json.{
  Num, is_finite, is_integer, lt_nat, le_nat, Json, undefined, null, bool, num, str, arr, obj,
  Items, nil, cons, items_list, Fields, end, field, lookup, get, truthy, coalesce, is_str, put,
  of_strings, is_null, strings,
}
use openfederation_pds.Rules.{settings_collection}

abbrev pub role_collection : String
role_collection = "net.openfederation.community.role"

abbrev pub collection_prefix : String
collection_prefix = "net.openfederation.community."

abbrev pub valid_governance_models : List String
valid_governance_models = "benevolent-dictator" ∷ "simple-majority" ∷ "on-chain" ∷ []

abbrev pub voting_models : List String
voting_models = "simple-majority" ∷ "on-chain" ∷ []

abbrev pub mandatory_protected_collections : List String
mandatory_protected_collections = settings_collection ∷ role_collection ∷ []

pub data SettingsProblem : Type 0 where
  unknown_model config_required bad_quorum no_voter_role bad_timelock_hours : SettingsProblem
  bad_objection_threshold bad_objection_review bad_override_quorum : SettingsProblem
  bad_override_days protected_not_array protected_not_strings chain_id_required : SettingsProblem
  anchoring_not_object anchoring_enabled_not_boolean anchoring_bad_chain : SettingsProblem
  anchoring_chain_required : SettingsProblem
  protected_lacks : String → SettingsProblem

-- What `trim` removes.
is_space : ℕ → Bool
is_space c =
    (leb 9 c && leb c 13)
    || c == 32
    || c == 160
    || c == 5760
    || (leb 8192 c && leb c 8202)
    || c == 8232
    || c == 8233
    || c == 8239
    || c == 8287
    || c == 12288
    || c == 65279

is_blank : String → Bool
unfolding is_space
is_blank String.[] = true
is_blank (String.◌∷◌ c s) = is_space (code c) && is_blank s

unfoldable pub is_chain_id : Json → Bool
unfolding is_blank
is_chain_id (str s) = not (is_blank s)
is_chain_id _ = false

unfoldable pub is_voting_model : String → Bool
unfolding includes
is_voting_model model = includes model voting_models

-- The first problem of two checks made in turn.
unfoldable pub or_else : Option SettingsProblem → Option SettingsProblem → Option SettingsProblem
or_else (some p) rest = some p
or_else none rest = rest

unfoldable pub require : Bool → SettingsProblem → Option SettingsProblem
require true p = none
require false p = some p

-- A number that passes the test.
unfoldable pub number_is : (Num → Bool) → Json → Bool
number_is valid (num n) = valid n
number_is valid _ = false

-- A key that is absent, or is a number that passes the test.
unfoldable pub optional_number : (Num → Bool) → Json → Bool
unfolding number_is
optional_number valid undefined = true
optional_number valid v = number_is valid v

unfoldable pub is_text : Json → Bool
is_text (str s) = true
is_text _ = false

unfoldable pub check_quorum : Fields → Bool → Option SettingsProblem
unfolding or_else require number_is optional_number truthy is_text
check_quorum c true =
    or_else
      (require (truthy (lookup "quorum" c) && number_is (λ n. not (lt_nat n 1)) (lookup "quorum" c))
        bad_quorum)
      (require (truthy (lookup "voterRole" c) && is_text (lookup "voterRole" c)) no_voter_role)
check_quorum c false =
    require (optional_number (λ n. not (lt_nat n 1)) (lookup "quorum" c)) bad_quorum

unfoldable pub review_ok : Json → Bool
review_ok undefined = true
review_ok v = is_str v "override" || is_str v "none"

unfoldable pub check_objection_rules : Fields → Option SettingsProblem
unfolding or_else require optional_number review_ok
check_objection_rules c =
    or_else
      (require (optional_number (λ n. is_finite n && not (lt_nat n 0)) (lookup "timelockHours" c))
        bad_timelock_hours)
      (or_else
        (require
          (optional_number (λ n. is_integer n && not (lt_nat n 1)) (lookup "objectionThreshold" c))
          bad_objection_threshold)
        (or_else (require (review_ok (lookup "objectionReview" c)) bad_objection_review) (
          or_else
            (require
              (optional_number (λ n. is_integer n && not (lt_nat n 1))
                (lookup "objectionOverrideQuorum" c))
              bad_override_quorum)
            (require
              (optional_number (λ n. is_finite n && not (le_nat n 0))
                (lookup "objectionOverrideDays" c))
              bad_override_days))))

unfoldable pub qualify : String → String
qualify c = if starts_with c collection_prefix then c else collection_prefix <> c

unfoldable pub all_strings : List Json → Bool
all_strings [] = true
all_strings (str s ∷ vs) = all_strings vs
all_strings (_ ∷ vs) = false

-- The loop over the mandatory collections: the problem, and the list with those pushed.
unfoldable pub add_mandatory :
    Bool → List String → List String → Option SettingsProblem × List String
add_mandatory normalize qualified [] = (none, qualified)
add_mandatory normalize qualified (m ∷ ms) =
    let kept = add_mandatory normalize qualified ms in
    let pushed = add_mandatory normalize (qualified ++ m ∷ []) ms in
    if includes m qualified
    then kept
    else if normalize
    then pushed
    else (some (protected_lacks m), qualified)

unfoldable pub check_protected_list : Fields → Bool → List Json → Option SettingsProblem × Fields
unfolding add_mandatory qualify all_strings strings
check_protected_list c normalize vs =
    let (problem, qualified) =
      add_mandatory normalize (map qualify (strings vs)) mandatory_protected_collections in
    if not (all_strings vs) then (some protected_not_strings, c) else elim problem [
      | some p ↦ (some p, c)
      | none ↦ (none, if normalize then put "protectedCollections" (of_strings qualified) c else c)
    ]

unfoldable pub check_protected : Fields → Bool → Json → Option SettingsProblem × Fields
unfolding check_protected_list items_list
check_protected c normalize undefined = (none, c)
check_protected c normalize (arr xs) = check_protected_list c normalize (items_list xs)
check_protected c normalize _ = (some protected_not_array, c)

unfoldable pub check_voting_config : Fields → Bool → Bool → Option SettingsProblem × Fields
unfolding check_quorum check_objection_rules check_protected or_else
check_voting_config c require_quorum normalize =
    elim (or_else (check_quorum c require_quorum) (check_objection_rules c)) [
      | some p ↦ (some p, c)
      | none ↦ check_protected c normalize (lookup "protectedCollections" c)
    ]

-- `!anchoring || typeof anchoring !== 'object' || Array.isArray(anchoring)`, then the fields of it.
unfoldable pub is_boolean : Json → Bool
is_boolean (bool b) = true
is_boolean _ = false

unfoldable pub is_optional_text : Json → Bool
is_optional_text undefined = true
is_optional_text (str s) = true
is_optional_text _ = false

unfoldable pub check_anchoring_fields : Fields → Fields → Option SettingsProblem
unfolding or_else require is_chain_id truthy is_boolean is_optional_text
check_anchoring_fields c a =
    or_else (require (is_boolean (lookup "enabled" a)) anchoring_enabled_not_boolean) (
      or_else (require (is_optional_text (lookup "chainId" a)) anchoring_bad_chain) (
        require
          (not (truthy (lookup "enabled" a))
            || truthy (lookup "chainId" a)
            || is_chain_id (lookup "chainId" c))
          anchoring_chain_required))

unfoldable pub check_anchoring : Fields → Json → Option SettingsProblem
unfolding check_anchoring_fields
check_anchoring c undefined = none
check_anchoring c (obj a) = check_anchoring_fields c a
check_anchoring c _ = some anchoring_not_object

-- The checks of a config that is an object, under a model that is known.
unfoldable pub check_config : String → Bool → Fields → Option SettingsProblem × Fields
unfolding check_voting_config is_voting_model is_chain_id check_anchoring or_else require
check_config model normalize c =
    let (problem, c') = check_voting_config c (str_eq model "simple-majority") normalize in
    if is_voting_model model
    then (
      or_else problem (
          or_else
            (require (not (str_eq model "on-chain") || is_chain_id (lookup "chainId" c'))
              chain_id_required)
            (check_anchoring c' (lookup "anchoring" c'))),
      c',
    )
    else (check_anchoring c (lookup "anchoring" c), c)

-- The keys of a config that are `null` describe removals and are left out.
unfoldable pub without_nulls : Fields → Fields
without_nulls end = end
without_nulls (field k null fs) = without_nulls fs
without_nulls (field k v fs) = field k v (without_nulls fs)

unfoldable pub has_null : Fields → Bool
has_null end = false
has_null (field k v fs) = is_null v || has_null fs

-- The config that is judged, and whether it is a copy.
unfoldable pub strip_removals : Fields → Fields × Bool
unfolding without_nulls has_null
strip_removals c = if has_null c then (without_nulls c, true) else (c, false)

-- The model that a record names, `benevolent-dictator` where it names none.
unfoldable pub known_model : Json → Option String
unfolding includes
known_model undefined = some "benevolent-dictator"
known_model null = some "benevolent-dictator"
known_model (str m) = if includes m valid_governance_models then some m else none
known_model _ = none

-- The answer of the check: the problem, and the caller's config after the call. The list of protected
-- collections is set in the config that is judged, so the caller sees it unless that is a copy.
pub record Checked : Type 0 where
  pub problem : Option SettingsProblem
  pub config : Json

unfoldable pub check_known_model : String → Bool → Json → Checked
unfolding check_config strip_removals is_voting_model
check_known_model model normalize (obj c) =
    let (judged, copied) = strip_removals c in
    let (problem, c') = check_config model normalize judged in
    record { problem = problem; config = obj (if copied then c else c') }
check_known_model model normalize v = record {
  problem = if is_voting_model model then some config_required else none;
  config = v;
}

-- `checkGovernanceSettings({ governanceModel, governanceConfig }, { normalize })`
unfoldable pub check_governance_settings : Json → Json → Bool → Checked
unfolding known_model check_known_model
check_governance_settings governance_model governance_config normalize =
    elim (known_model governance_model) [
      | none ↦ record { problem = some unknown_model; config = governance_config }
      | some model ↦ check_known_model model normalize governance_config
    ]
