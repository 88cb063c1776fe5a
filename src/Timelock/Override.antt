-- ===== src/Timelock/Override.antt =====
-- The end of an override round: `closeExpiredOverride`, and the sweeps over a community's proposals.
pub mod Laws
use openfederation_pds.Base.{
  ltb, ℕ, Bool, true, false, not, ◌&&◌, ◌||◌, Option, none, some, List, [], ◌∷◌, ◌++◌, String,
  str_eq, ltb, text_lt, suc, ◌-◌, if◌then◌else◌, length, includes,
}
use openfederation_pds.Json.{
  Num, lt_nat, le_nat, Json, undefined, null, str, arr, obj, Fields, end, get, lookup, as_str,
  as_array, is_str, put, strings, of_strings,
}
use openfederation_pds.Dates.{Dates}
use openfederation_pds.Rules.{
  proposal_collection, evidence_model_vote_records, max_cid_chain, objection_threshold,
}
use openfederation_pds.Settings.{SettingsProblem}
use openfederation_pds.Index.{
  Row, Repo, World, Act, ◌>>=◌, ◌>>◌, pure, throw, find_row, Op, write, delete, apply_writes,
  audit_log,
}
use openfederation_pds.Timelock.Merge.{
  community_settings_record, proposal_application_problem, ChangeOps, change, unapplicable_change,
  proposed_change_ops,
}
use openfederation_pds.Timelock.Objections.{
  CountedObjection, countable_objections, held_proposal_state, pending_status,
}
use openfederation_pds.Timelock.Objections.{override_status}
use openfederation_pds.Timelock.Apply.{
  put_proposal_record, ApplyOutcome, applied, apply_if_due_safely,
}

-- The tests that the preview and the locked part make of `overrideExpiresAt`.
unfoldable pub has_expired : String → Option String → Bool
has_expired now none = false
has_expired now (some expires_at) = not (str_eq expires_at "") && not (text_lt now expires_at)

module _ (repo : Repo) (did rkey now : String) where
  unfoldable pub closed_override : Fields → Fields
  closed_override proposal =
      put "overrideOutcome" (str "expired")
        (put "resolvedAt" (str now) (put "status" (str "rejected") proposal))

  unfoldable pub close_round : Fields → Act Bool
  unfolding closed_override
  close_round proposal = do
    put_proposal_record repo did rkey (closed_override proposal)
    audit_log "community.proposal.overrideExpired" did rkey
    pure true

  unfoldable pub close_record : Json → Act Bool
  unfolding has_expired close_round
  close_record (obj proposal) w =
      if is_str (lookup "status" proposal) override_status
        && has_expired now (as_str (lookup "overrideExpiresAt" proposal))
      then close_round proposal w
      else (some false, w)
  close_record _ w = (some false, w)

  unfoldable pub close_row : Option Row → Act Bool
  unfolding close_record
  close_row none = pure false
  close_row (some row) = close_record row.rec

  -- The part under the proposal's advisory lock.
  unfoldable pub close_locked : Act Bool
  unfolding close_row
  close_locked w = close_row (find_row did proposal_collection rkey w.rows) w

  unfoldable pub preview_round : Option Row → Act Bool
  unfolding has_expired close_locked
  preview_round none w = (some false, w)
  preview_round (some row) w =
      if is_str (get "status" row.rec) override_status
        && has_expired now (as_str (get "overrideExpiresAt" row.rec))
      then close_locked w
      else (some false, w)

  unfoldable pub close_expired_override : Act Bool
  unfolding preview_round
  close_expired_override w = preview_round (find_row did proposal_collection rkey w.rows) w

  -- A failure is contained and recorded.
  unfoldable pub close_expired_override_safely : World → Bool × World
  unfolding close_expired_override
  close_expired_override_safely w =
      let (closed, w') = close_expired_override w in
      elim closed [
        | some b ↦ (b, w')
        | none ↦ (false, (audit_log "community.proposal.overrideCloseFailed" did rkey w').1)
      ]

-- `record->>'key' <= now`
unfoldable pub elapsed : String → Option String → Bool
elapsed now none = false
elapsed now (some instant) = not (text_lt now instant)

-- The proposals of a community in a state, whose instant has come, by their keys in order.
unfoldable pub is_due : String → String → String → String → Row → Bool
unfolding elapsed
is_due status key did now row =
    str_eq row.did did
    && str_eq row.collection proposal_collection
    && is_str (get "status" row.rec) status
    && elapsed now (as_str (get key row.rec))

unfoldable pub insert_key : String → List String → List String
insert_key k [] = k ∷ []
insert_key k (j ∷ js) = if text_lt j k then j ∷ insert_key k js else k ∷ j ∷ js

unfoldable pub due_keys : String → String → String → String → List Row → List String
unfolding is_due insert_key
due_keys status key did now [] = []
due_keys status key did now (row ∷ rows) =
    let rest = due_keys status key did now rows in
    if is_due status key did now row then insert_key row.rkey rest else rest

unfoldable pub count_applied : Option ApplyOutcome → ℕ → ℕ
count_applied (some applied) n = suc n
count_applied _ n = n

-- The loop over the proposals that are due: each is on its own.
unfoldable pub apply_each : Dates → Repo → String → String → List String → World → ℕ × World
unfolding count_applied
apply_each dates repo did now [] w = (0, w)
apply_each dates repo did now (rkey ∷ rkeys) w =
    let (outcome, w') = apply_if_due_safely dates repo did rkey now w in
    let (n, w2) = apply_each dates repo did now rkeys w' in (count_applied outcome n, w2)

unfoldable pub apply_due_proposals : Dates → Repo → String → String → World → ℕ × World
unfolding apply_each due_keys
apply_due_proposals dates repo did now w =
    apply_each dates repo did now (due_keys pending_status "applyAt" did now w.rows) w

unfoldable pub close_each : Repo → String → String → List String → World → ℕ × World
close_each repo did now [] w = (0, w)
close_each repo did now (rkey ∷ rkeys) w =
    let (closed, w') = close_expired_override_safely repo did rkey now w in
    let (n, w2) = close_each repo did now rkeys w' in (if closed then suc n else n, w2)

unfoldable pub close_expired_overrides : Repo → String → String → World → ℕ × World
unfolding close_each due_keys
close_expired_overrides repo did now w =
    close_each repo did now (due_keys override_status "overrideExpiresAt" did now w.rows) w
