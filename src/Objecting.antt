-- ===== src/Objecting.antt =====
-- An objection to the application of a decision, src/api/net.openfederation.community.objectToProposal.ts.
-- The call is made at one instant of the clock; `tid` is the key of the objection's record.
use openfederation_pds.Base.{
  ℕ, suc, Bool, true, false, not, ◌||◌, Option, none, some, List, [], ◌∷◌, String, str_eq, text_lt,
  ltb, if◌then◌else◌, length,
}
use openfederation_pds.Json.{
  Json, Num, undefined, str, obj, Fields, get, lookup, is_str, as_str, as_array,
}
use openfederation_pds.Dates.{Dates}
use openfederation_pds.Rules.{proposal_collection, objection_threshold}
use openfederation_pds.Index.{Row, Repo, Act, ◌>>=◌, ◌>>◌, pure, throw, find_row, audit_log}
use openfederation_pds.Records.{ObjectionRecordInput, write_objection_record}
use openfederation_pds.Timelock.Merge.{community_settings_record}
use openfederation_pds.Timelock.Objections.{
  CountedObjection, countable_objections, held_proposal_state, pending_status, objected_status,
  override_status,
}
use openfederation_pds.Timelock.Apply.{put_proposal_record, settings_or_undefined, reaches}
use openfederation_pds.Timelock.Override.{apply_due_proposals, close_expired_overrides}

abbrev pub max_reason_length : ℕ
max_reason_length = 2000

pub data ObjectionRefusal : Type 0 where
  missing_fields bad_reason not_permitted proposal_not_found already_held round_open not_pending :
      ObjectionRefusal
  no_window window_closed already_objected check_failed objection_not_recordable : ObjectionRefusal
  record_failed : ObjectionRefusal

-- The status that is answered, the objections that count, and the threshold.
pub record Registered : Type 0 where
  pub status : Json
  pub count : ℕ
  pub threshold : Num

pub data ObjectionAnswer : Type 0 where
  refused_objection : ObjectionRefusal → ObjectionAnswer
  registered : Registered → ObjectionAnswer

-- `s.length`, for a text in the basic plane.
unfoldable pub text_length : String → ℕ
text_length String.[] = 0
text_length (String.◌∷◌ c s) = suc (text_length s)

-- `reason` in the body: absent, a text, or another value.
unfoldable pub reason_ok : Json → Bool
unfolding text_length
reason_ok undefined = true
reason_ok (str s) = not (ltb max_reason_length (text_length s))
reason_ok _ = false

unfoldable pub names_objector : String → List CountedObjection → Bool
names_objector did [] = false
names_objector did (o ∷ os) = str_eq o.objector did || names_objector did os

-- `(proposal.objections ?? []).some(o => o?.objector === did)`
unfoldable pub caches_objector : String → List Json → Bool
caches_objector did [] = false
caches_objector did (o ∷ os) = is_str (get "objector" o) did || caches_objector did os

-- The decision and the window that a proposal has: its `uri`, its `cid` and the instant.
pub record Contest : Type 0 where
  pub uri : String
  pub cid : String
  pub apply_at : String

-- A text that is not empty.
unfoldable pub stated : Json → Option String
stated (str s) = if str_eq s "" then none else some s
stated _ = none

unfoldable pub contest_of : Fields → Option Contest
unfolding stated
contest_of proposal = elim (stated (lookup "applyAt" proposal)) [
  | none ↦ none
  | some apply_at ↦ elim (stated (get "uri" (lookup "decision" proposal))) [
    | none ↦ none
    | some uri ↦ elim (stated (get "cid" (lookup "decision" proposal))) [
      | none ↦ none
      | some cid ↦ some (record { uri = uri; cid = cid; apply_at = apply_at })
    ]
  ]
]

unfoldable pub status_refusal : Fields → Option ObjectionRefusal
status_refusal proposal =
    let status = lookup "status" proposal in
    if is_str status override_status
    then some round_open
    else if is_str status objected_status
    then some already_held
    else if is_str status pending_status
    then none
    else some not_pending

-- `canRecordObjection`; `none` where the check fails.
unfoldable pub able_refusal : Option Bool → Option ObjectionRefusal
able_refusal none = some check_failed
able_refusal (some false) = some objection_not_recordable
able_refusal (some true) = none

module _ (dates : Dates) (repo : Repo) (check : String → Option Bool) (did rkey objector : String)
    (reason : Option String) (tid : String) (t : ℕ) where
  unfoldable pub audit_round : Fields → Act (Unit {0})
  audit_round held w =
      if is_str (lookup "status" held) override_status
      then audit_log "community.proposal.overrideOpened" did rkey w
      else (some tt, w)

  -- The proposal is rewritten only where the objections reach the threshold.
  unfoldable pub write_hold : Option Fields → Act Json
  unfolding audit_round
  write_hold none = throw
  write_hold (some held) = do
    put_proposal_record repo did rkey held
    audit_round held
    pure (lookup "status" held)

  unfoldable pub hold_if_reached : Fields → Json → List CountedObjection → Act Json
  unfolding write_hold reaches
  hold_if_reached proposal settings objections w =
      if reaches objections (objection_threshold settings)
      then write_hold
          (held_proposal_state dates w.rows did proposal settings objections (dates.iso t)) w
      else (some (lookup "status" proposal), w)

  -- After the objection's own record: the objections are counted again.
  unfoldable pub register : Fields → Act ObjectionAnswer
  unfolding hold_if_reached settings_or_undefined
  register proposal w =
      let settings = settings_or_undefined (community_settings_record w.rows did) in
      let objections = countable_objections w.rows did rkey (obj proposal) in
      (do
        status ← hold_if_reached proposal settings objections
        audit_log "community.proposal.objection" did rkey
        pure (
            registered (record {
              status = status;
              count = length objections;
              threshold = objection_threshold settings;
            })))
        w

  unfoldable pub objection_input : String → Contest → ObjectionRecordInput
  objection_input proposal_cid contest = record {
    objector_did = objector;
    community_did = did;
    proposal_rkey = rkey;
    proposal_cid = proposal_cid;
    decision = record { uri = contest.uri; cid = contest.cid };
    reason = reason;
  }

  -- A record that cannot be written is no objection.
  unfoldable pub after_record : Fields → Option (Unit {0}) → Act ObjectionAnswer
  unfolding register
  after_record proposal none w = (some (refused_objection record_failed), w)
  after_record proposal (some u) w = register proposal w

  unfoldable pub object_now : Row → Fields → Contest → Act ObjectionAnswer
  unfolding objection_input after_record
  object_now row proposal contest w =
      let (done, w') =
        write_objection_record repo (objection_input row.cid contest) tid (dates.iso t) w in
      after_record proposal done w'

  unfoldable pub has_objected : List Row → Fields → Bool
  unfolding names_objector caches_objector
  has_objected rows proposal =
      names_objector objector (countable_objections rows did rkey (obj proposal))
      || caches_objector objector (as_array (lookup "objections" proposal))

  unfoldable pub object_in_window : Row → Fields → Option Contest → Act ObjectionAnswer
  unfolding object_now has_objected able_refusal
  object_in_window row proposal none w = (some (refused_objection no_window), w)
  object_in_window row proposal (some contest) w =
      if not (text_lt (dates.iso t) contest.apply_at)
      then (some (refused_objection window_closed), w)
      else if has_objected w.rows proposal
      then (some (refused_objection already_objected), w)
      else elim (able_refusal (check objector)) [
        | some refusal ↦ (some (refused_objection refusal), w)
        | none ↦ object_now row proposal contest w
      ]

  unfoldable pub object_in_status : Row → Fields → Option ObjectionRefusal → Act ObjectionAnswer
  unfolding object_in_window contest_of
  object_in_status row proposal (some refusal) w = (some (refused_objection refusal), w)
  object_in_status row proposal none w = object_in_window row proposal (contest_of proposal) w

  -- A proposal's record is an object.
  unfoldable pub object_to_record : Row → Json → Act ObjectionAnswer
  unfolding object_in_status status_refusal
  object_to_record row (obj proposal) = object_in_status row proposal (status_refusal proposal)
  object_to_record row _ = throw

  unfoldable pub object_to_row : Option Row → Act ObjectionAnswer
  unfolding object_to_record
  object_to_row none w = (some (refused_objection proposal_not_found), w)
  object_to_row (some row) w = object_to_record row row.rec w

  -- The part under the proposal's advisory lock.
  unfoldable pub object_locked : Act ObjectionAnswer
  unfolding object_to_row
  object_locked w = object_to_row (find_row did proposal_collection rkey w.rows) w

  -- The sweeps over the community's proposals come first.
  unfoldable pub sweep_and_object : Act ObjectionAnswer
  unfolding object_locked apply_due_proposals close_expired_overrides
  sweep_and_object w =
      let (_, w1) = apply_due_proposals dates repo did (dates.iso t) w in
      let (_, w2) = close_expired_overrides repo did (dates.iso t) w1 in object_locked w2

-- The whole request of an account that is signed in, with the permission that the guard finds. The
-- community and the proposal of the body are texts. `none` is the answer 500.
unfoldable pub object_to_proposal :
    Dates
    → Repo
    → (String → Option Bool)
    → Bool
    → String
    → String
    → Json
    → String
    → String
    → ℕ
    → Act ObjectionAnswer
unfolding sweep_and_object reason_ok as_str
object_to_proposal dates repo check permitted did rkey reason objector tid t w =
    if str_eq did "" || str_eq rkey ""
    then (some (refused_objection missing_fields), w)
    else if not (reason_ok reason)
    then (some (refused_objection bad_reason), w)
    else if permitted
    then sweep_and_object dates repo check did rkey objector (as_str reason) tid t w
    else (some (refused_objection not_permitted), w)
