-- ===== src/Timelock/Objections.antt =====
-- The objections that hold an application, and what a held proposal becomes: `countableObjections`
-- and `heldProposalState`.
use openfederation_pds.Base.{
  ℕ, Bool, true, ◌&&◌, Option, none, some, List, [], ◌∷◌, String, ◌<>◌, str_eq, text_lt,
  if◌then◌else◌,
}
use openfederation_pds.Json.{
  Num, whole, num, Json, str, arr, obj, nil, Fields, object, get, as_str, is_str, truthy, as_num,
  put, list_items,
}
use openfederation_pds.Dates.{Dates}
use openfederation_pds.Rules.{
  objection_collection, proposal_uri, ObjectionEligibility, ObjectionEligibilityResult,
  countable_objection, uncountable_objection, check_objection_record, override, no_review,
  objection_review_mode, default_quorum, config, override_expires_at, objection_override_days,
  override_quorum_from,
}
use openfederation_pds.Index.{Row}
use openfederation_pds.Electorate.{count_eligible_voters}

pub record CountedObjection : Type 0 where
  pub objector : String
  pub uri : String
  pub cid : String
  pub created_at : String
  pub reason : Option String

-- What the objections of a proposal have to cite, if it has a decision and a window.
unfoldable pub objection_context : String → String → Json → Option ObjectionEligibility
unfolding as_str
objection_context did rkey proposal = elim (as_str (get "uri" (get "decision" proposal))) [
  | none ↦ none
  | some uri ↦ elim (as_str (get "cid" (get "decision" proposal))) [
    | none ↦ none
    | some cid ↦ elim (as_str (get "resolvedAt" proposal)) [
      | none ↦ none
      | some resolved ↦ elim (as_str (get "applyAt" proposal)) [
        | none ↦ none
        | some apply_at ↦ some (record {
          proposal_uri = proposal_uri did rkey;
          decision_uri = uri;
          decision_cid = cid;
          resolved_at = resolved;
          apply_at = apply_at;
        })
      ]
    ]
  ]
]

-- The rows that the query selects.
unfoldable pub objects_to : String → String → Row → Bool
objects_to did rkey row =
    str_eq row.collection objection_collection
    && (is_str (get "community" row.rec) did && is_str (get "proposalRkey" row.rec) rkey)

unfoldable pub counted_objection : Row → String → CountedObjection
counted_objection row created_at = record {
  objector = row.did;
  uri = "at://" <> (row.did <> ("/" <> (objection_collection <> ("/" <> row.rkey))));
  cid = row.cid;
  created_at = created_at;
  reason = as_str (get "reason" row.rec);
}

-- The map from objectors to their objection, in the order of their first one: the earlier stays.
unfoldable pub hold : CountedObjection → List CountedObjection → List CountedObjection
hold o [] = o ∷ []
hold o (h ∷ hs) =
    if str_eq h.objector o.objector
    then (if text_lt o.created_at h.created_at then o ∷ hs else h ∷ hs)
    else h ∷ hold o hs

unfoldable pub hold_countable :
    CountedObjection → ObjectionEligibilityResult → List CountedObjection → List CountedObjection
unfolding hold
hold_countable o (countable_objection created_at) held =
    hold (record o { created_at = created_at }) held
hold_countable o (uncountable_objection reason) held = held

unfoldable pub collect_objections :
    String
    → String
    → ObjectionEligibility
    → List Row
    → List CountedObjection
    → List CountedObjection
unfolding objects_to hold_countable counted_objection
collect_objections did rkey ctx [] held = held
collect_objections did rkey ctx (row ∷ rows) held = collect_objections did rkey ctx rows (
    if objects_to did rkey row
    then hold_countable (counted_objection row "") (check_objection_record row.rec ctx) held
    else held)

-- The sort by `createdAt`; on times as the clock writes them `localeCompare` is the order of texts.
unfoldable pub insert_objection : CountedObjection → List CountedObjection → List CountedObjection
insert_objection o [] = o ∷ []
insert_objection o (h ∷ hs) =
    if text_lt o.created_at h.created_at then o ∷ h ∷ hs else h ∷ insert_objection o hs

unfoldable pub sort_objections :
    List CountedObjection → List CountedObjection → List CountedObjection
unfolding insert_objection
sort_objections [] sorted = sorted
sort_objections (o ∷ os) sorted = sort_objections os (insert_objection o sorted)

unfoldable pub countable_objections : List Row → String → String → Json → List CountedObjection
unfolding objection_context collect_objections sort_objections
countable_objections rows did rkey proposal = elim (objection_context did rkey proposal) [
  | none ↦ []
  | some ctx ↦ sort_objections (collect_objections did rkey ctx rows []) []
]

unfoldable pub with_reason : Option String → Fields → Fields
with_reason none fs = fs
with_reason (some s) fs = put "reason" (str s) fs

-- The entries of the `objections` array that the proposal caches.
unfoldable pub objection_json : CountedObjection → Json
unfolding with_reason
objection_json o = obj (
    with_reason o.reason (
      object (
        ("objector", str o.objector)
        ∷ ("record", obj (object (("uri", str o.uri) ∷ ("cid", str o.cid) ∷ [])))
        ∷ ("createdAt", str o.created_at)
        ∷ [])))

unfoldable pub objections_list : List CountedObjection → List Json
unfolding objection_json
objections_list [] = []
objections_list (o ∷ os) = objection_json o ∷ objections_list os

unfoldable pub objections_json : List CountedObjection → Json
unfolding objections_list list_items
objections_json os = arr (list_items (objections_list os))

abbrev pub pending_status : String
pending_status = "pending-application"

abbrev pub objected_status : String
objected_status = "objected"

abbrev pub override_status : String
override_status = "objection-override"

unfoldable pub quorum_of : Bool → Option Num → Num
quorum_of true (some n) = n
quorum_of _ _ = whole default_quorum

-- `settings?.governanceConfig?.quorum || DEFAULT_QUORUM`, for a quorum that is no other kind of value.
unfoldable pub ordinary_quorum : Json → Num
unfolding quorum_of
ordinary_quorum settings =
    quorum_of (truthy (config "quorum" settings)) (as_num (config "quorum" settings))

unfoldable pub override_fields :
    Fields → Json → List CountedObjection → String → String → ℕ → Fields
override_fields proposal settings objections held_at expires_at eligible_voters =
    put "votesAgainst" (arr nil) (
      put "votesFor" (arr nil) (
        put "overrideElectorate" (num (whole eligible_voters)) (
          put "overrideQuorum"
            (num (override_quorum_from settings (ordinary_quorum settings) eligible_voters))
            (put "overrideExpiresAt" (str expires_at) (
              put "overrideOpenedAt" (str held_at) (
                put "objections" (objections_json objections)
                  (put "status" (str override_status) proposal)))))))

-- `none` where the end of the round is no valid date and the call throws.
unfoldable pub held_proposal_state :
    Dates → List Row → String → Fields → Json → List CountedObjection → String → Option Fields
unfolding override_fields
held_proposal_state dates rows did proposal settings objections held_at =
    elim (objection_review_mode settings) [
      | no_review ↦ some (
          put "objections" (objections_json objections)
            (put "status" (str objected_status) proposal))
      | override ↦ elim (override_expires_at dates held_at (objection_override_days settings)) [
        | none ↦ none
        | some expires_at ↦ some (
            override_fields proposal settings objections held_at expires_at
              (count_eligible_voters rows did))
      ]
    ]
