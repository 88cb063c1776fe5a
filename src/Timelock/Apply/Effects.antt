-- ===== src/Timelock/Apply/Effects.antt =====
-- What a lazy application has done, by its outcome.
use openfederation_pds.Base.{
  ◌≡◌, refl, ◌≢◌, Bool, false, Option, some, none, List, ◌∷◌, String, text_lt, arith, length, inl,
  inr, Bool-cases,
}
use openfederation_pds.Json.{
  Json, str, obj, Fields, put, lookup, is_str, as_str, le_nat, is_str_iff, eq-str_of_as_str,
}
use openfederation_pds.Dates.{Dates}
use openfederation_pds.Rules.{proposal_collection, objection_threshold}
use openfederation_pds.Settings.{SettingsProblem}
use openfederation_pds.Index.{
  Row, Repo, World, Act, find_row, Op, apply_writes, apply_ops, audit_log,
}
use openfederation_pds.Timelock.Merge.{
  community_settings_record, change, unapplicable_change, ChangeOps, proposed_change_ops,
}
use openfederation_pds.Timelock.Objections.{CountedObjection, countable_objections, pending_status}
use openfederation_pds.Timelock.Apply.{
  ApplyOutcome, applied, proposal_write_op, put_proposal_record, commit_change, apply_change,
  hold_application, settings_or_undefined, reaches, settle, at_window, apply_record, apply_row,
  apply_locked,
}

module _ (dates : Dates) (repo : Repo) (did rkey now : String) where
  abbrev locked : Act ApplyOutcome
  locked = apply_locked dates repo did rkey now

  -- What an application rests on: a pending proposal whose instant of application has come, fewer
  -- countable objections than the threshold, a change that may be made, and one commit that holds
  -- the closed proposal and the change.
  pub record IsApplication (w w' : World) : Type 0 where
    pub row : Row
    pub proposal : Fields
    pub apply_at : String
    pub ops : List Op
    pub found : find_row did proposal_collection rkey w.rows ≡ some row
    pub held : row.rec ≡ obj proposal
    pub pending : lookup "status" proposal ≡ str pending_status
    pub window : lookup "applyAt" proposal ≡ str apply_at
    pub elapsed : text_lt now apply_at ≡ false
    pub unobjected :
        le_nat
          (objection_threshold (settings_or_undefined (community_settings_record w.rows did)))
          (length (countable_objections w.rows did rkey (obj proposal)))
        ≡ false
    pub authorized : proposed_change_ops w.rows did (obj proposal) ≡ change ops
    pub committed :
        apply_ops repo did
          (proposal_write_op w.rows did rkey
              (put "appliedAt" (str now) (put "status" (str "approved") proposal))
            ∷ ops)
          w.rows
        ≡ some w'.rows

  commit-applied :
      (proposal : Fields) (c : ChangeOps) (w w' : World)
      → commit_change dates repo did rkey now proposal c w ≡ (some applied, w')
      → (ops : List Op) × (c ≡ change ops)
        × (apply_ops repo did
              (proposal_write_op w.rows did rkey
                  (put "appliedAt" (str now) (put "status" (str "approved") proposal))
                ∷ ops)
              w.rows
            ≡ some w'.rows)
  unfolding commit_change apply_writes audit_log
  commit-applied proposal (unapplicable_change p) w w' h = cc
  commit-applied proposal (change ops) w w' h = (ops, refl, ground arith)

  hold-not-applied :
      (os : List CountedObjection) (held : Option Fields) (w w' : World)
      → hold_application dates repo did rkey now os held w ≢ (some applied, w')
  unfolding hold_application put_proposal_record apply_writes audit_log
  hold-not-applied os none w w' = λ h. cc
  hold-not-applied os (some held) w w' = λ h. ground arith

  refused-not-applied :
      (proposal : Fields) (problem : SettingsProblem) (w w' : World)
      → apply_change dates repo did rkey now proposal (some problem) w ≢ (some applied, w')
  unfolding apply_change put_proposal_record apply_writes audit_log
  refused-not-applied proposal problem w w' = λ h. ground arith

  abbrev pub is_reached : World → Fields → Bool
  is_reached w proposal =
      reaches (countable_objections w.rows did rkey (obj proposal))
        (objection_threshold (settings_or_undefined (community_settings_record w.rows did)))

  apply_change-applied :
      (proposal : Fields) (problem : Option SettingsProblem) (w w' : World)
      → apply_change dates repo did rkey now proposal problem w ≡ (some applied, w')
      → (commit_change dates repo did rkey now proposal
            (proposed_change_ops w.rows did (obj proposal))
            w
          ≡ (some applied, w'))
  unfolding apply_change
  apply_change-applied proposal (some p) w w' h = absurd (refused-not-applied proposal p w w' h)
  apply_change-applied proposal none w w' h = h

  settle-applied :
      (proposal : Fields) (w w' : World)
      → settle dates repo did rkey now proposal w ≡ (some applied, w')
      → (is_reached w proposal ≡ false)
        × (commit_change dates repo did rkey now proposal
              (proposed_change_ops w.rows did (obj proposal))
              w
            ≡ (some applied, w'))
  unfolding settle
  settle-applied proposal w w' h = elim (Bool-cases (is_reached w proposal)) [
    | inl e ↦ absurd (hold-not-applied _ _ w w' (rw (e, settle) at h))
    | inr e ↦ (e, apply_change-applied proposal _ w w' (rw (e, settle) at h))
  ]

  at_window-applied :
      (o : Option String) (due : Act ApplyOutcome) (w w' : World)
      → at_window dates repo did rkey now o due w ≡ (some applied, w')
      → (apply_at : String) × (o ≡ some apply_at)
        × (text_lt now apply_at ≡ false)
        × (due w ≡ (some applied, w'))
  unfolding at_window
  at_window-applied none due w w' h = cc
  at_window-applied (some apply_at) due w w' h = (apply_at, refl, ground arith, ground arith)

  record-applied :
      (rec : Json) (w w' : World)
      → apply_record dates repo did rkey now rec w ≡ (some applied, w')
      → (proposal : Fields) × (apply_at : String) × (rec ≡ obj proposal)
        × (lookup "status" proposal ≡ str pending_status)
        × (lookup "applyAt" proposal ≡ str apply_at)
        × (text_lt now apply_at ≡ false)
        × (settle dates repo did rkey now proposal w ≡ (some applied, w'))
  unfolding apply_record
  record-applied (obj proposal) w w' h =
      elim (Bool-cases (is_str (lookup "status" proposal) pending_status)) [
        | inl e ↦
            let (apply_at, stated, elapsed, due) =
              at_window-applied (as_str (lookup "applyAt" proposal))
                (settle dates repo did rkey now proposal) w w' (rw e at h) in
            (
              proposal,
              apply_at,
              refl,
              (is_str_iff _ _).0 e,
              eq-str_of_as_str _ _ stated,
              elapsed,
              due,
            )
        | inr e ↦ let no = rw e at h in cc
      ]
  record-applied rec w w' h = cc

  row-applied :
      (o : Option Row) (w w' : World)
      → apply_row dates repo did rkey now o w ≡ (some applied, w')
      → (row : Row) × (o ≡ some row)
        × (apply_record dates repo did rkey now row.rec w ≡ (some applied, w'))
  unfolding apply_row
  row-applied none w w' h = cc
  row-applied (some row) w w' h = (row, refl, h)

  -- The locked part of `applyIfDue` answers `applied` only for a pending proposal whose instant of application has
  -- come and that fewer countable objections contest than the threshold; and then the proposal is
  -- closed as approved at `now` in one commit with the change that it authorizes.
  pub apply_locked-applied :
      (w w' : World)
      → apply_locked dates repo did rkey now w ≡ (some applied, w')
      → IsApplication w w'
  unfolding apply_locked reaches
  apply_locked-applied w w' h =
      let (row, found, h1) = row-applied _ w w' h in
      let (proposal, apply_at, held, pending, window, elapsed, h2) =
        record-applied row.rec w w' h1 in
      let (unobjected, h3) = settle-applied proposal w w' h2 in
      let (ops, authorized, committed) = commit-applied proposal _ w w' h3 in
      record {
        row = row;
        proposal = proposal;
        apply_at = apply_at;
        ops = ops;
        found = found;
        held = held;
        pending = pending;
        window = window;
        elapsed = elapsed;
        unobjected = unobjected;
        authorized = authorized;
        committed = committed;
      }
