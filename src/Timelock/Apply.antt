-- ===== src/Timelock/Apply.antt =====
-- Lazy application of a decided change: `putProposalRecord`, `applyIfDue` and the sweep over the
-- proposals that are due. `now` is the text of the clock, and a repository's failure is an exception.
pub mod Effects
pub mod Laws
pub mod SingleShot
use openfederation_pds.Base.{
  ltb, ℕ, Bool, true, false, not, ◌&&◌, ◌||◌, Option, none, some, List, [], ◌∷◌, ◌++◌, String,
  str_eq, ltb, text_lt, suc, ◌-◌, if◌then◌else◌, length, includes,
}
use openfederation_pds.Json.{
  Num, lt_nat, le_nat, Json, undefined, null, str, arr, obj, Fields, end, get, lookup, as_str,
  as_array, is_str, put, strings, of_strings,
}
use openfederation_pds.Dates.{Dates}
use openfederation_pds.Rules.{
  apply_at_from, timelock_hours, proposal_collection, evidence_model_vote_records, max_cid_chain,
  objection_threshold,
}
use openfederation_pds.Settings.{SettingsProblem}
use openfederation_pds.Index.{
  Row, Repo, World, Act, ◌>>=◌, ◌>>◌, pure, throw, find_row, Op, write, delete, apply_writes,
  audit_log,
}
use openfederation_pds.Timelock.Merge.{
  community_settings_record, proposal_application_problem, ChangeOps, change, unapplicable_change,
  proposed_change_ops,
}
use openfederation_pds.Timelock.Objections.{
  CountedObjection, countable_objections, held_proposal_state, pending_status,
}

-- `chain.slice(-n)`
unfoldable pub last_entries : ℕ → List String → List String
last_entries n [] = []
last_entries n (x ∷ xs) =
    let rest = last_entries n xs in if ltb n (suc (length xs)) then rest else x ∷ xs

unfoldable pub extended_chain : Option Row → List String → List String
extended_chain none existing = existing
extended_chain (some row) existing =
    if str_eq row.cid "" || includes row.cid existing then existing else existing ++ row.cid ∷ []

-- The record of a proposal write, with the state that it replaces in its lineage.
unfoldable pub with_lineage : List Row → String → String → Fields → Fields
unfolding extended_chain last_entries
with_lineage rows did rkey proposal =
    if is_str (lookup "evidenceModel" proposal) evidence_model_vote_records
    then put "cidChain"
        (of_strings (
          last_entries max_cid_chain (
            extended_chain (find_row did proposal_collection rkey rows)
              (strings (as_array (lookup "cidChain" proposal))))))
        proposal
    else proposal

unfoldable pub proposal_write_op : List Row → String → String → Fields → Op
unfolding with_lineage
proposal_write_op rows did rkey proposal =
    write proposal_collection rkey (obj (with_lineage rows did rkey proposal))

unfoldable pub put_proposal_record : Repo → String → String → Fields → Act (Unit {0})
unfolding proposal_write_op
put_proposal_record repo did rkey proposal w =
    apply_writes repo did (proposal_write_op w.rows did rkey proposal ∷ []) w

pub data ApplyOutcome : Type 0 where
  applied not_pending : ApplyOutcome
  unapplicable : SettingsProblem → ApplyOutcome
  window_open : String → ApplyOutcome
  objected : List CountedObjection → ApplyOutcome

unfoldable pub settings_or_undefined : Option Json → Json
settings_or_undefined none = undefined
settings_or_undefined (some settings) = settings

-- `objections.length >= threshold`
unfoldable pub reaches : List CountedObjection → Num → Bool
reaches objections threshold = le_nat threshold (length objections)

module _ (dates : Dates) (repo : Repo) (did rkey now : String) where
  -- The change and the proposal's terminal state, in one commit.
  unfoldable pub commit_change : Fields → ChangeOps → Act ApplyOutcome
  commit_change proposal (unapplicable_change problem) w = (none, w)
  commit_change proposal (change ops) w =
      (do
        apply_writes repo did (
            proposal_write_op w.rows did rkey
              (put "appliedAt" (str now) (put "status" (str "approved") proposal))
            ∷ ops)
        audit_log "community.proposal.apply" did rkey
        pure applied)
        w

  -- The branch of a proposal that is due and not held.
  unfoldable pub apply_change : Fields → Option SettingsProblem → Act ApplyOutcome
  unfolding commit_change
  apply_change proposal (some problem) w =
      (do
        put_proposal_record repo did rkey (put "status" (str "approved") proposal)
        audit_log "community.proposal.applyFailed" did rkey
        pure (unapplicable problem))
        w
  apply_change proposal none w =
      commit_change proposal (proposed_change_ops w.rows did (obj proposal)) w

  unfoldable pub hold_application : List CountedObjection → Option Fields → Act ApplyOutcome
  hold_application objections none = throw
  hold_application objections (some held) = do
    put_proposal_record repo did rkey held
    audit_log "community.proposal.applicationHeld" did rkey
    pure (objected objections)

  -- A proposal that is pending and whose window has elapsed.
  unfoldable pub settle : Fields → Act ApplyOutcome
  unfolding apply_change hold_application settings_or_undefined reaches
  settle proposal w =
      let objections = countable_objections w.rows did rkey (obj proposal) in
      let settings = settings_or_undefined (community_settings_record w.rows did) in
      if reaches objections (objection_threshold settings)
      then hold_application objections
          (held_proposal_state dates w.rows did proposal settings objections now) w
      else apply_change proposal (proposal_application_problem w.rows did (obj proposal)) w

  -- The two tests that the preview and the locked part make of `applyAt`.
  unfoldable pub at_window : Option String → Act ApplyOutcome → Act ApplyOutcome
  at_window none due = pure not_pending
  at_window (some apply_at) due =
      if str_eq apply_at ""
      then pure not_pending
      else if text_lt now apply_at
      then pure (window_open apply_at)
      else due

  unfoldable pub apply_record : Json → Act ApplyOutcome
  unfolding settle at_window
  apply_record (obj proposal) =
      if is_str (lookup "status" proposal) pending_status
      then at_window (as_str (lookup "applyAt" proposal)) (settle proposal)
      else pure not_pending
  apply_record _ = pure not_pending

  unfoldable pub apply_row : Option Row → Act ApplyOutcome
  unfolding apply_record
  apply_row none = pure not_pending
  apply_row (some row) = apply_record row.rec

  -- The part under the proposal's advisory lock.
  unfoldable pub apply_locked : Act ApplyOutcome
  unfolding apply_row
  apply_locked w = apply_row (find_row did proposal_collection rkey w.rows) w

  -- The unlocked read that returns from the common no-op.
  unfoldable pub preview_row : Option Row → Act ApplyOutcome
  unfolding at_window apply_locked
  preview_row none = pure not_pending
  preview_row (some row) =
      if is_str (get "status" row.rec) pending_status
      then at_window (as_str (get "applyAt" row.rec)) apply_locked
      else pure not_pending

  unfoldable pub apply_if_due : Act ApplyOutcome
  unfolding preview_row
  apply_if_due w = preview_row (find_row did proposal_collection rkey w.rows) w

  -- A failure is contained and recorded.
  unfoldable pub apply_if_due_safely : World → Option ApplyOutcome × World
  unfolding apply_if_due
  apply_if_due_safely w =
      let (outcome, w') = apply_if_due w in
      elim outcome [
        | some o ↦ (some o, w')
        | none ↦ (none, (audit_log "community.proposal.applyFailed" did rkey w').1)
      ]

-- The state that an approved proposal enters: `some none` where no window is to be waited out, the
-- instant of application where there is one, and `none` where the instant is no valid date.
unfoldable pub pending_application_state : Dates → Json → String → Option (Option String)
pending_application_state dates settings resolved_at =
    let hours = timelock_hours settings in
    if le_nat hours 0 then some none else elim (apply_at_from dates resolved_at hours) [
      | none ↦ none
      | some apply_at ↦ some (some apply_at)
    ]

unfoldable pub apply_change_ops : Repo → String → ChangeOps → Act (Unit {0})
apply_change_ops repo did (unapplicable_change problem) = throw
apply_change_ops repo did (change []) = pure tt
apply_change_ops repo did (change (op ∷ ops)) = apply_writes repo did (op ∷ ops)

unfoldable pub apply_proposed_change : Repo → String → Json → Act (Unit {0})
unfolding apply_change_ops
apply_proposed_change repo did proposal w =
    apply_change_ops repo did (proposed_change_ops w.rows did proposal) w
