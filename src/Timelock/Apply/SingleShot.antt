-- ===== src/Timelock/Apply/SingleShot.antt =====
-- A second call for a proposal that a first one has settled.
use openfederation_pds.Base.{
  ◌&&◌, ◌∙◌, ℕ, ◌≡◌, refl, sym, ◌≢◌, false, Option, some, none, List, [], ◌∷◌, String, str_eq,
  arith, inl, inr, Bool-cases, Option-cases,
}
use openfederation_pds.Json.{lookup-put, Json, str, obj, Fields, put, lookup, get, is_str}
use openfederation_pds.Electorate.{count_eligible_voters}
use openfederation_pds.Timelock.Apply.Laws.{is_idle, apply_if_due-locked}
use openfederation_pds.Timelock.Apply.Effects.{is_reached}
use openfederation_pds.Dates.{Dates}
use openfederation_pds.Rules.{
  override_expires_at, objection_override_days, evidence_model_vote_records, text_or_empty,
  proposal_collection,
}
use openfederation_pds.Settings.{SettingsProblem}
use openfederation_pds.Index.Laws.{LeavesAlone, find_row-apply_ops_written}
use openfederation_pds.Index.{Row, Repo, World, find_row, Op, apply_writes, apply_ops, audit_log}
use openfederation_pds.Timelock.Merge.{
  delete_ops, change, unapplicable_change, ChangeOps, proposed_change_ops,
}
use openfederation_pds.Timelock.Objections.{
  objected_status, objections_json, override_fields, override_fields, CountedObjection,
  pending_status, held_proposal_state,
}
use openfederation_pds.Timelock.Apply.{
  with_lineage, ApplyOutcome, not_pending, proposal_write_op, put_proposal_record, commit_change,
  apply_change, hold_application, settle, at_window, apply_record, apply_row, apply_locked,
  preview_row, apply_if_due,
}

-- The community's record of the proposal is there and is not pending.
pub record IsSettled (did rkey : String) (rows : List Row) : Type 0 where
  pub row : Row
  pub proposal : Fields
  pub found : find_row did proposal_collection rkey rows ≡ some row
  pub held : row.rec ≡ obj proposal
  pub closed : is_str (lookup "status" proposal) pending_status ≡ false

pub status-with_lineage :
    (rows : List Row) (did rkey : String) (p : Fields)
    → lookup "status" (with_lineage rows did rkey p) ≡ lookup "status" p
unfolding with_lineage
status-with_lineage rows did rkey p =
    elim (Bool-cases (is_str (lookup "evidenceModel" p) evidence_model_vote_records)) [
      | inl e ↦ rw e (lookup-put "status" "cidChain" _ p)
      | inr e ↦ rw e refl
    ]

-- The change is about another record than the proposal itself.
abbrev pub IsElsewhere : String → Json → Type 0
IsElsewhere rkey proposal =
    (str_eq (text_or_empty (get "targetCollection" proposal)) proposal_collection
      && str_eq (text_or_empty (get "targetRkey" proposal)) rkey)
    ≡ false

pub change-LeavesAlone :
    (rows : List Row) (did rkey : String) (proposal : Json) (ops : List Op)
    → IsElsewhere rkey proposal
    → proposed_change_ops rows did proposal ≡ change ops
    → LeavesAlone proposal_collection rkey ops
unfolding proposed_change_ops delete_ops
change-LeavesAlone rows did rkey proposal ops h e = ground arith

status_objected :
    (p : Fields) (os : Json)
    → is_str
        (lookup "status" (put "objections" os (put "status" (str objected_status) p)))
        pending_status
      ≡ false
unfolding is_str
status_objected p os = simp lookup-put refl

status_overridden :
    (p : Fields) (settings : Json) (os : List CountedObjection) (held_at expires_at : String)
    (eligible_voters : ℕ)
    → is_str
        (lookup "status" (override_fields p settings os held_at expires_at eligible_voters))
        pending_status
      ≡ false
unfolding is_str override_fields
status_overridden p settings os held_at expires_at eligible_voters = simp lookup-put refl

status-held :
    (dates : Dates) (rows : List Row) (did : String) (p : Fields) (settings : Json)
    (os : List CountedObjection) (now : String) (held : Fields)
    → held_proposal_state dates rows did p settings os now ≡ some held
    → is_str (lookup "status" held) pending_status ≡ false
unfolding held_proposal_state
status-held dates rows did p settings os now held e =
    elim (Option-cases (override_expires_at dates now (objection_override_days settings))) [
      | inl failed ↦ ground (arith, status_objected p (objections_json os))
      | inr (expires, ended) ↦ ground (
        arith,
        status_objected p (objections_json os),
        status_overridden p settings os now expires (count_eligible_voters rows did),
      )
    ]

status_approved :
    (p : Fields) → is_str (lookup "status" (put "status" (str "approved") p)) pending_status ≡ false
unfolding is_str
status_approved p = rw (lookup-put "status" "status" (str "approved") p) refl

status_applied :
    (p : Fields) (now : String)
    → is_str
        (lookup "status" (put "appliedAt" (str now) (put "status" (str "approved") p)))
        pending_status
      ≡ false
unfolding is_str
status_applied p now = simp lookup-put refl

module _ (dates : Dates) (repo : Repo) (did rkey now : String) where
  written-IsSettled :
      (p : Fields) (ops : List Op) (rows rows' : List Row)
      → is_str (lookup "status" p) pending_status ≡ false
      → LeavesAlone proposal_collection rkey ops
      → apply_ops repo did (proposal_write_op rows did rkey p ∷ ops) rows ≡ some rows'
      → IsSettled did rkey rows'
  unfolding proposal_write_op
  written-IsSettled p ops rows rows' h alone e =
      let (row, found, held) =
        find_row-apply_ops_written repo did proposal_collection rkey
          (obj (with_lineage rows did rkey p)) ops rows rows' alone e in
      record {
        row = row;
        proposal = with_lineage rows did rkey p;
        found = found;
        held = held;
        closed = rw (status-with_lineage rows did rkey p) h;
      }

  hold-committed :
      (os : List CountedObjection) (held : Fields) (w w' : World) (o : ApplyOutcome)
      → hold_application dates repo did rkey now os (some held) w ≡ (some o, w')
      → apply_ops repo did (proposal_write_op w.rows did rkey held ∷ []) w.rows ≡ some w'.rows
  unfolding hold_application put_proposal_record apply_writes audit_log
  hold-committed os held w w' o h = ground arith

  refuse-committed :
      (p : Fields) (problem : SettingsProblem) (w w' : World) (o : ApplyOutcome)
      → apply_change dates repo did rkey now p (some problem) w ≡ (some o, w')
      → apply_ops repo did
          (proposal_write_op w.rows did rkey (put "status" (str "approved") p) ∷ [])
          w.rows
        ≡ some w'.rows
  unfolding apply_change put_proposal_record apply_writes audit_log
  refuse-committed p problem w w' o h = ground arith

  commit-committed :
      (p : Fields) (c : ChangeOps) (w w' : World) (o : ApplyOutcome)
      → commit_change dates repo did rkey now p c w ≡ (some o, w')
      → (ops : List Op) × (c ≡ change ops)
        × (apply_ops repo did
              (proposal_write_op w.rows did rkey
                  (put "appliedAt" (str now) (put "status" (str "approved") p))
                ∷ ops)
              w.rows
            ≡ some w'.rows)
  unfolding commit_change apply_writes audit_log
  commit-committed p (unapplicable_change problem) w w' o h = cc
  commit-committed p (change ops) w w' o h = (ops, refl, ground arith)

  thrown :
      (os : List CountedObjection) (w w' : World) (o : ApplyOutcome)
      → hold_application dates repo did rkey now os none w ≢ (some o, w')
  unfolding hold_application
  thrown os w w' o = λ h. cc

  hold-IsSettled :
      (os : List CountedObjection) (settings : Json) (p : Fields) (state : Option Fields)
      (w w' : World) (o : ApplyOutcome)
      → held_proposal_state dates w.rows did p settings os now ≡ state
      → hold_application dates repo did rkey now os state w ≡ (some o, w')
      → IsSettled did rkey w'.rows
  hold-IsSettled os settings p none w w' o e h = absurd (thrown os w w' o h)
  hold-IsSettled os settings p (some held) w w' o e h =
      written-IsSettled held [] w.rows w'.rows
        (status-held dates w.rows did p settings os now held e) tt (hold-committed os held w w' o h)

  change-IsSettled :
      (p : Fields) (problem : Option SettingsProblem) (w w' : World) (o : ApplyOutcome)
      → IsElsewhere rkey (obj p)
      → apply_change dates repo did rkey now p problem w ≡ (some o, w')
      → IsSettled did rkey w'.rows
  unfolding apply_change
  change-IsSettled p (some problem) w w' o away h =
      written-IsSettled (put "status" (str "approved") p) [] w.rows w'.rows (status_approved p) tt
        (refuse-committed p problem w w' o h)
  change-IsSettled p none w w' o away h =
      let (ops, authorized, e) =
        commit-committed p (proposed_change_ops w.rows did (obj p)) w w' o h in
      written-IsSettled (put "appliedAt" (str now) (put "status" (str "approved") p)) ops w.rows
        w'.rows (status_applied p now)
        (change-LeavesAlone w.rows did rkey (obj p) ops away authorized) e

  settle-IsSettled :
      (p : Fields) (w w' : World) (o : ApplyOutcome)
      → IsElsewhere rkey (obj p)
      → settle dates repo did rkey now p w ≡ (some o, w')
      → IsSettled did rkey w'.rows
  unfolding settle
  settle-IsSettled p w w' o away h = elim (Bool-cases (is_reached dates repo did rkey now w p)) [
    | inl e ↦ hold-IsSettled _ _ p _ w w' o refl (rw (e, settle) at h)
    | inr e ↦ change-IsSettled p _ w w' o away (rw (e, settle) at h)
  ]

  record-IsSettled :
      (rec : Json) (w w' : World) (o : ApplyOutcome)
      → IsElsewhere rkey rec
      → apply_record dates repo did rkey now rec w ≡ (some o, w')
      → is_idle dates repo did rkey now o ≡ false
      → IsSettled did rkey w'.rows
  unfolding apply_record at_window
  record-IsSettled (obj p) w w' o away h i = settle-IsSettled p w w' o away (ground arith)
  record-IsSettled rec w w' o away h i = cc

  row-IsSettled :
      (row : Option Row) (w w' : World) (o : ApplyOutcome)
      → ((r : Row) → row ≡ some r → IsElsewhere rkey r.rec)
      → apply_row dates repo did rkey now row w ≡ (some o, w')
      → is_idle dates repo did rkey now o ≡ false
      → IsSettled did rkey w'.rows
  unfolding apply_row
  row-IsSettled none w w' o away h i = cc
  row-IsSettled (some row) w w' o away h i = record-IsSettled row.rec w w' o (away row refl) h i

IsSettled-not_pending :
    (dates : Dates) (repo : Repo) (did rkey now : String) (w : World)
    → IsSettled did rkey w.rows
    → apply_if_due dates repo did rkey now w ≡ (some not_pending, w)
unfolding apply_if_due preview_row get
IsSettled-not_pending dates repo did rkey now w s =
    rw (s.found, preview_row) (rw (s.held) (rw s.closed refl))

-- Provided that the change is about another record than the proposal, a call of `applyIfDue` that answers
-- `applied`, `unapplicable` or `objected` is the last of its sequence to do anything: a call for the
-- proposal that follows it, at any time and with nothing else in between, answers `not_pending` and
-- leaves everything as it was, for the next call to find the same again.
pub apply_if_due_once :
    (dates : Dates) (repo : Repo) (did rkey now later : String) (w w' : World) (o : ApplyOutcome)
    → ((r : Row) → find_row did proposal_collection rkey w.rows ≡ some r → IsElsewhere rkey r.rec)
    → apply_if_due dates repo did rkey now w ≡ (some o, w')
    → is_idle dates repo did rkey now o ≡ false
    → apply_if_due dates repo did rkey later w' ≡ (some not_pending, w')
unfolding apply_locked
apply_if_due_once dates repo did rkey now later w w' o away h i =
    IsSettled-not_pending dates repo did rkey later w' (
      row-IsSettled dates repo did rkey now (find_row did proposal_collection rkey w.rows) w w' o
        away (sym (apply_if_due-locked dates repo did rkey now w) ∙ h) i)
