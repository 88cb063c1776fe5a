-- ===== src/Delegating.antt =====
-- The delegation of a member's votes: src/api/net.openfederation.community.setDelegation.ts,
-- revokeDelegation.ts and getDelegation.ts. The delegations that a query finds come in the order of
-- the rows, which is not fixed in the source. The two commits of a change are two steps.
pub mod Laws
pub mod RoundTrip
use openfederation_pds.Base.{
  Bool, true, false, not, ◌&&◌, ◌||◌, Option, none, some, List, [], ◌∷◌, String, str_eq,
  if◌then◌else◌,
}
use openfederation_pds.Json.{Json, str, obj, Fields, object, get, is_str, as_str}
use openfederation_pds.Index.{
  Row, Repo, World, Act, ◌>>=◌, ◌>>◌, pure, Op, delete, apply_writes, put_record, audit_log,
}
use openfederation_pds.Voting.Counting.{delegation_collection}

pub data DelegationRefusal : Type 0 where
  missing_fields to_self not_permitted not_member no_delegation : DelegationRefusal

pub data DelegationAnswer : Type 0 where
  refused_delegation : DelegationRefusal → DelegationAnswer
  delegated : String → DelegationAnswer
  revoked : DelegationAnswer

-- `record->>'key' = member`, of a delegation of the community.
unfoldable pub is_delegation_of : String → String → String → Row → Bool
is_delegation_of key did member row =
    str_eq row.did did
    && str_eq row.collection delegation_collection
    && is_str (get key row.rec) member

unfoldable pub delegations_of : String → String → String → List Row → List Row
unfolding is_delegation_of
delegations_of key did member [] = []
delegations_of key did member (row ∷ rows) =
    let rest = delegations_of key did member rows in
    if is_delegation_of key did member row then row ∷ rest else rest

unfoldable pub delegation_json : String → String → String → Json
delegation_json member delegate now = obj (
    object
      (("delegatorDid", str member) ∷ ("delegateDid", str delegate) ∷ ("createdAt", str now) ∷ []))

-- A text that is not empty, for `|| null` and `filter(Boolean)`.
unfoldable pub text_of : Json → Option String
text_of (str s) = if str_eq s "" then none else some s
text_of _ = none

unfoldable pub texts_of : String → List Row → List String
unfolding text_of
texts_of key [] = []
texts_of key (row ∷ rows) =
    let rest = texts_of key rows in
    elim (text_of (get key row.rec)) [ none ↦ rest | some s ↦ s ∷ rest ]

unfoldable pub delegate_of : List Row → Option String
unfolding text_of
delegate_of [] = none
delegate_of (row ∷ rows) = text_of (get "delegateDid" row.rec)

-- The answer of `getDelegation`: whom the member delegated to, and who delegated to the member.
pub record Delegations : Type 0 where
  pub delegated_to : Option String
  pub delegated_from : List String

unfoldable pub get_delegation : String → String → List Row → Option Delegations
unfolding delegations_of delegate_of texts_of
get_delegation did member rows =
    if str_eq did "" || str_eq member ""
    then none
    else some (record {
      delegated_to = delegate_of (delegations_of "delegatorDid" did member rows);
      delegated_from = texts_of "delegatorDid" (delegations_of "delegateDid" did member rows);
    })

module _ (repo : Repo) (did member : String) where
  unfoldable pub remove_delegation : Row → Act (Unit {0})
  remove_delegation row = apply_writes repo did (delete delegation_collection row.rkey ∷ [])

  unfoldable pub remove_first : List Row → Act (Unit {0})
  unfolding remove_delegation
  remove_first [] = pure tt
  remove_first (row ∷ rows) = remove_delegation row

  -- The delegation that there is is removed before the new one is written.
  unfoldable pub replace_delegation : String → String → String → Act DelegationAnswer
  unfolding remove_first delegations_of delegation_json
  replace_delegation delegate tid now w =
      (do
        remove_first (delegations_of "delegatorDid" did member w.rows)
        put_record repo did delegation_collection tid (delegation_json member delegate now)
        audit_log "community.delegation.set" did delegate
        pure (delegated tid))
        w

  unfoldable pub set_delegation :
      Bool → (String → String → Option String) → String → String → String → Act DelegationAnswer
  unfolding replace_delegation
  set_delegation permitted unique delegate tid now w =
      if str_eq did "" || str_eq delegate ""
      then (some (refused_delegation missing_fields), w)
      else if str_eq delegate member
      then (some (refused_delegation to_self), w)
      else if not permitted
      then (some (refused_delegation not_permitted), w)
      else elim (unique did delegate) [
        | none ↦ (some (refused_delegation not_member), w)
        | some rkey ↦ replace_delegation delegate tid now w
      ]

  unfoldable pub revoke_first : List Row → Act DelegationAnswer
  unfolding remove_delegation
  revoke_first [] = pure (refused_delegation no_delegation)
  revoke_first (row ∷ rows) = do
    remove_delegation row
    audit_log "community.delegation.revoke" did ""
    pure revoked

  unfoldable pub revoke_delegation : Act DelegationAnswer
  unfolding revoke_first delegations_of
  revoke_delegation w =
      if str_eq did ""
      then (some (refused_delegation missing_fields), w)
      else revoke_first (delegations_of "delegatorDid" did member w.rows) w
