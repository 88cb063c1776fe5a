-- ===== src/Electorate.antt =====
-- How many members could vote, src/governance/electorate.ts.
use openfederation_pds.Base.{
  ℕ, suc, Bool, ◌&&◌, Option, none, some, List, [], ◌∷◌, String, str_eq, if◌then◌else◌, includes,
}
use openfederation_pds.Json.{Json, get, as_str, as_array, strings}
use openfederation_pds.Rules.{governance_write_permission, legacy_role_permissions}
use openfederation_pds.Settings.{role_collection}
use openfederation_pds.Index.{Row, find_row}

abbrev pub member_collection : String
member_collection = "net.openfederation.community.member"

-- `record->>'key'` of a record whose value there, if any, is a text.
unfoldable pub text_field : String → Json → Option String
unfolding as_str
text_field key rec = as_str (get key rec)

unfoldable pub role_row_permissions : Option Row → List String
role_row_permissions none = []
role_row_permissions (some row) = strings (as_array (get "permissions" row.rec))

-- `LEGACY_ROLE_PERMISSIONS[row.role || 'member'] || []`
unfoldable pub named_role_permissions : Option String → List String
named_role_permissions none = legacy_role_permissions "member"
named_role_permissions (some role) =
    legacy_role_permissions (if str_eq role "" then "member" else role)

unfoldable pub permissions_of : List Row → String → Option String → Json → List String
unfolding role_row_permissions named_role_permissions text_field
permissions_of rows did none member = named_role_permissions (text_field "role" member)
permissions_of rows did (some role_rkey) member =
    if str_eq role_rkey ""
    then named_role_permissions (text_field "role" member)
    else role_row_permissions (find_row did role_collection role_rkey rows)

unfoldable pub is_eligible : List Row → String → Json → Bool
unfolding permissions_of text_field
is_eligible rows did member =
    includes governance_write_permission
      (permissions_of rows did (text_field "roleRkey" member) member)

-- The loop over the member rows; `rows` is the whole table, in which the roles are found.
unfoldable pub count_eligible : List Row → String → List Row → ℕ
unfolding is_eligible
count_eligible rows did [] = 0
count_eligible rows did (m ∷ ms) =
    let rest = count_eligible rows did ms in
    if str_eq m.did did && str_eq m.collection member_collection && is_eligible rows did m.rec
    then suc rest
    else rest

unfoldable pub count_eligible_voters : List Row → String → ℕ
unfolding count_eligible
count_eligible_voters rows did = count_eligible rows did rows
