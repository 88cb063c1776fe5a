-- ===== src/Timelock/Apply/Laws.antt =====
-- Lazy application over all outcomes: the preview, and the calls without effect.
use openfederation_pds.Base.{
  if◌then◌else◌, ◌∙◌, ◌≡◌, refl, sym, Bool, true, false, Option, some, none, List, String, arith,
  inl, inr, Bool-cases,
}
use openfederation_pds.Json.{Json, obj, Fields, lookup, get, is_str, as_str}
use openfederation_pds.Dates.{Dates}
use openfederation_pds.Rules.{proposal_collection}
use openfederation_pds.Settings.{SettingsProblem}
use openfederation_pds.Index.{Row, Repo, World, Act, pure, find_row, apply_writes, audit_log}
use openfederation_pds.Timelock.Merge.{community_settings_record, proposal_application_problem}
use openfederation_pds.Timelock.Objections.{
  CountedObjection, countable_objections, pending_status, held_proposal_state,
}
use openfederation_pds.Timelock.Apply.{
  ApplyOutcome, not_pending, window_open, put_proposal_record, commit_change, apply_change,
  hold_application, settings_or_undefined, settle, at_window, apply_record, apply_row, apply_locked,
  preview_row, apply_if_due,
}

module _ (dates : Dates) (repo : Repo) (did rkey now : String) where
  at_window-again :
      (o : Option String) (due again : Act ApplyOutcome) (w : World)
      → again w ≡ at_window dates repo did rkey now o due w
      → at_window dates repo did rkey now o again w ≡ at_window dates repo did rkey now o due w
  unfolding at_window
  at_window-again none due again w h = refl
  at_window-again (some apply_at) due again w h = ground arith

  preview_record :
      (rec : Json) (again : Act ApplyOutcome) (w : World)
      → again w ≡ apply_record dates repo did rkey now rec w
      → (if is_str (get "status" rec) pending_status
            then at_window dates repo did rkey now (as_str (get "applyAt" rec)) again
            else pure not_pending)
          w
        ≡ apply_record dates repo did rkey now rec w
  unfolding apply_record get is_str
  preview_record (obj proposal) again w h =
      elim (Bool-cases (is_str (lookup "status" proposal) pending_status)) [
        | inl e ↦ rw e (
            at_window-again (as_str (lookup "applyAt" proposal))
              (settle dates repo did rkey now proposal) again w (rw e at h))
        | inr e ↦ rw e refl
      ]
  preview_record rec again w h = refl

  preview-locked :
      (o : Option Row) (w : World)
      → find_row did proposal_collection rkey w.rows ≡ o
      → preview_row dates repo did rkey now o w ≡ apply_row dates repo did rkey now o w
  unfolding preview_row apply_row
  preview-locked none w e = refl
  preview-locked (some row) w e =
      preview_record row.rec (apply_locked dates repo did rkey now) w
        (unfold apply_locked apply_row in rw e refl)

  -- The unlocked read of `applyIfDue` changes no answer and no effect: with it and without it the call is the same.
  pub apply_if_due-locked :
      (w : World) → apply_if_due dates repo did rkey now w ≡ apply_locked dates repo did rkey now w
  unfolding apply_if_due apply_locked
  apply_if_due-locked w = preview-locked (find_row did proposal_collection rkey w.rows) w refl

  -- Whether an answer leaves everything as it was.
  abbrev pub is_idle : ApplyOutcome → Bool
  is_idle not_pending = true
  is_idle (window_open apply_at) = true
  is_idle _ = false

  hold-not-idle :
      (os : List CountedObjection) (held : Option Fields) (w w' : World) (o : ApplyOutcome)
      → hold_application dates repo did rkey now os held w ≡ (some o, w')
      → is_idle o ≡ false
  unfolding hold_application put_proposal_record apply_writes audit_log
  hold-not-idle os none w w' o h = cc
  hold-not-idle os (some held) w w' o h = ground arith

  change-not-idle :
      (proposal : Fields) (problem : Option SettingsProblem) (w w' : World) (o : ApplyOutcome)
      → apply_change dates repo did rkey now proposal problem w ≡ (some o, w')
      → is_idle o ≡ false
  unfolding apply_change commit_change put_proposal_record apply_writes audit_log
  change-not-idle proposal (some p) w w' o h = ground arith
  change-not-idle proposal none w w' o h = ground arith

  settle-not-idle :
      (proposal : Fields) (w w' : World) (o : ApplyOutcome)
      → settle dates repo did rkey now proposal w ≡ (some o, w')
      → is_idle o ≡ false
  unfolding settle
  settle-not-idle proposal w w' o h = ground (
    arith,
    hold-not-idle (countable_objections w.rows did rkey (obj proposal))
        (held_proposal_state dates w.rows did proposal
          (settings_or_undefined (community_settings_record w.rows did))
          (countable_objections w.rows did rkey (obj proposal)) now)
        w w' o,
    change-not-idle proposal (proposal_application_problem w.rows did (obj proposal)) w w' o,
  )

  record_idle :
      (rec : Json) (w w' : World) (o : ApplyOutcome)
      → apply_record dates repo did rkey now rec w ≡ (some o, w')
      → is_idle o ≡ true
      → w' ≡ w
  unfolding apply_record at_window
  record_idle (obj proposal) w w' o h i = ground (arith, settle-not-idle proposal w w' o)
  record_idle rec w w' o h i = cc

  row_idle :
      (row : Option Row) (w w' : World) (o : ApplyOutcome)
      → apply_row dates repo did rkey now row w ≡ (some o, w')
      → is_idle o ≡ true
      → w' ≡ w
  unfolding apply_row
  row_idle none w w' o h i = cc
  row_idle (some row) w w' o h i = record_idle row.rec w w' o h i

  -- An answer `not_pending` or `window_open` leaves all rows and the audit log as they were.
  pub apply_if_due_idle :
      (w w' : World) (o : ApplyOutcome)
      → apply_if_due dates repo did rkey now w ≡ (some o, w')
      → is_idle o ≡ true
      → w' ≡ w
  unfolding apply_locked
  apply_if_due_idle w w' o h i =
      row_idle (find_row did proposal_collection rkey w.rows) w w' o
        (sym (apply_if_due-locked w) ∙ h) i
