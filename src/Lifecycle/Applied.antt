-- ===== src/Lifecycle/Applied.antt =====
-- The phase of a proposal through a lazy application and the end of an override round.
use openfederation_pds.Base.{
  text_lt, str_eq, ℕ, ◌≤◌, ◌≡◌, refl, inl, inr, Bool-cases, Option-cases, true, ◌&&◌, Option, none,
  some, List, [], ◌∷◌, String, arith,
}
use openfederation_pds.Json.{
  Json, str, obj, Fields, lookup, put, get, is_str, is_str_iff, lookup-put, as_str,
}
use openfederation_pds.Dates.{Dates}
use openfederation_pds.Rules.{override_expires_at, objection_override_days}
use openfederation_pds.Settings.{SettingsProblem}
use openfederation_pds.Index.{Row, Repo, World, Act, apply_writes}
use openfederation_pds.Electorate.{count_eligible_voters}
use openfederation_pds.Timelock.Merge.{ChangeOps, change, unapplicable_change, proposed_change_ops}
use openfederation_pds.Timelock.Objections.{
  CountedObjection, held_proposal_state, override_fields, objections_json, pending_status,
  objected_status, override_status,
}
use openfederation_pds.Timelock.Apply.{
  proposal_write_op, applied, unapplicable, objected, ApplyOutcome, commit_change, apply_change,
  hold_application, settle, at_window, apply_record, apply_row, apply_locked, put_proposal_record,
}
use openfederation_pds.Timelock.Apply.Effects.{is_reached}
use openfederation_pds.Timelock.Apply.SingleShot.{change-LeavesAlone}
use openfederation_pds.Timelock.Override.{
  has_expired, close_round, close_record, close_row, close_locked, closed_override,
}
use openfederation_pds.Lifecycle.{
  phase, IsAway, IsAtLeast, Keeps, Keeps-finish, Keeps-put, Keeps-commit,
}

pub phase_pending : (v : Json) → is_str v pending_status ≡ true → phase v ≡ 1
unfolding phase is_str
phase_pending v h = rw ((is_str_iff v pending_status).0 h) refl

pub phase_override : (v : Json) → is_str v override_status ≡ true → phase v ≡ 2
unfolding phase is_str
phase_override v h = rw ((is_str_iff v override_status).0 h) refl

pub phase-le : (v : Json) → phase v ≤ 3
unfolding phase
phase-le v = ground arith

phase_approved : (p : Fields) → phase (lookup "status" (put "status" (str "approved") p)) ≡ 3
unfolding phase is_str
phase_approved p = rw (lookup-put "status" "status" (str "approved") p) refl

phase_applied :
    (p : Fields) (now : String)
    → phase (lookup "status" (put "appliedAt" (str now) (put "status" (str "approved") p))) ≡ 3
unfolding phase is_str
phase_applied p now = simp lookup-put refl

phase-closed_override :
    (repo : Repo) (did rkey now : String) (p : Fields)
    → phase (lookup "status" (closed_override repo did rkey now p)) ≡ 3
unfolding phase is_str closed_override
phase-closed_override repo did rkey now p = simp lookup-put refl

-- What a hold makes of a proposal: it is held for good, or in its override round.
pub record IsHeldFrom (rkey : String) (p held : Fields) : Type 0 where
  pub far : 2 ≤ phase (lookup "status" held)
  pub about : IsAway rkey p → IsAway rkey held

objected_from :
    (rkey : String) (p : Fields) (os : Json)
    → IsHeldFrom rkey p (put "objections" os (put "status" (str objected_status) p))
unfolding phase is_str get
objected_from rkey p os = record {
  far = simp lookup-put (omega arith);
  about = λ h. simp lookup-put h;
}

overridden_from :
    (rkey : String) (p : Fields) (settings : Json) (os : List CountedObjection)
    (held_at expires_at : String) (eligible_voters : ℕ)
    → IsHeldFrom rkey p (override_fields p settings os held_at expires_at eligible_voters)
unfolding phase is_str override_fields get
overridden_from rkey p settings os held_at expires_at eligible_voters = record {
  far = simp lookup-put (omega arith);
  about = λ h. simp lookup-put h;
}

pub held_from :
    (dates : Dates) (rows : List Row) (did rkey : String) (p : Fields) (settings : Json)
    (os : List CountedObjection) (now : String) (held : Fields)
    → held_proposal_state dates rows did p settings os now ≡ some held
    → IsHeldFrom rkey p held
unfolding held_proposal_state
held_from dates rows did rkey p settings os now held e =
    elim (Option-cases (override_expires_at dates now (objection_override_days settings))) [
      | inl failed ↦ ground (arith, objected_from rkey p (objections_json os))
      | inr (expires, ended) ↦ ground (
        arith,
        objected_from rkey p (objections_json os),
        overridden_from rkey p settings os now expires (count_eligible_voters rows did),
      )
    ]

module _ (dates : Dates) (repo : Repo) (did rkey now : String) (n : ℕ) where
  abbrev KeepsHere : {A : Type 0} → Act A → Type 0
  KeepsHere m = Keeps repo did rkey n m

  commit_change-Keeps :
      (p : Fields) (rows : List Row) (c : ChangeOps) (w : World)
      → n ≤ 3
      → IsAway rkey p
      → proposed_change_ops rows did (obj p) ≡ c
      → IsAtLeast did rkey n w.rows
      → IsAtLeast did rkey n (commit_change dates repo did rkey now p c w).1.rows
  unfolding commit_change get
  commit_change-Keeps p rows (unapplicable_change problem) w h away e s = s
  commit_change-Keeps p rows (change ops) w h away e s =
      let q = put "appliedAt" (str now) (put "status" (str "approved") p) in
      Keeps-finish repo did rkey n
        (apply_writes repo did (proposal_write_op w.rows did rkey q ∷ ops))
        "community.proposal.apply" did rkey applied
        (Keeps-commit repo did rkey n q [] ops w.rows (rw (phase_applied p now) h)
          (simp lookup-put away) (change-LeavesAlone rows did rkey (obj p) ops away e))
        w s

  apply_change-Keeps :
      (p : Fields) (problem : Option SettingsProblem) (w : World)
      → n ≤ 3
      → IsAway rkey p
      → IsAtLeast did rkey n w.rows
      → IsAtLeast did rkey n (apply_change dates repo did rkey now p problem w).1.rows
  unfolding apply_change get
  apply_change-Keeps p (some problem) w h away s =
      let q = put "status" (str "approved") p in
      Keeps-finish repo did rkey n (put_proposal_record repo did rkey q)
        "community.proposal.applyFailed" did rkey (unapplicable problem)
        (Keeps-put repo did rkey n q (rw (phase_approved p) h) (simp lookup-put away)) w s
  apply_change-Keeps p none w h away s = commit_change-Keeps p w.rows _ w h away refl s

  hold-Keeps :
      (p : Fields) (os : List CountedObjection) (held : Option Fields)
      → n ≤ 2
      → IsAway rkey p
      → ((q : Fields) → held ≡ some q → IsHeldFrom rkey p q)
      → KeepsHere (hold_application dates repo did rkey now os held)
  unfolding hold_application
  hold-Keeps p os none h away from w s = s
  hold-Keeps p os (some q) h away from w s =
      let f = from q refl in
      Keeps-finish repo did rkey n (put_proposal_record repo did rkey q)
        "community.proposal.applicationHeld" did rkey (objected os)
        (Keeps-put repo did rkey n q (omega (arith, f.far)) (f.about away)) w s

  settle-Keeps :
      (p : Fields) (w : World)
      → n ≤ 1
      → IsAway rkey p
      → IsAtLeast did rkey n w.rows
      → IsAtLeast did rkey n (settle dates repo did rkey now p w).1.rows
  unfolding settle
  settle-Keeps p w h away s = elim (Bool-cases (is_reached dates repo did rkey now w p)) [
    | inl e ↦
        rw (e, settle)
          (hold-Keeps p _ _ (omega arith) away
            (λ q held. held_from dates w.rows did rkey p _ _ now q held) w s)
    | inr e ↦ rw (e, settle) (apply_change-Keeps p _ w (omega arith) away s)
  ]

  -- The wait for the end of the window does nothing.
  window-Keeps :
      (apply_at : Option String) (due : Act ApplyOutcome) (w : World)
      → IsAtLeast did rkey n w.rows
      → IsAtLeast did rkey n (due w).1.rows
      → IsAtLeast did rkey n (at_window dates repo did rkey now apply_at due w).1.rows
  unfolding at_window
  window-Keeps none due w s d = s
  window-Keeps (some apply_at) due w s d = elim (Bool-cases (str_eq apply_at "")) [
    | inl e ↦ rw e s
    | inr e ↦ elim (Bool-cases (text_lt now apply_at)) [
      | inl e2 ↦ rw e (rw e2 s)
      | inr e2 ↦ rw e (rw e2 d)
    ]
  ]

  record-Keeps :
      (p : Fields) (w : World)
      → IsAway rkey p
      → n ≤ phase (lookup "status" p)
      → IsAtLeast did rkey n w.rows
      → IsAtLeast did rkey n (apply_record dates repo did rkey now (obj p) w).1.rows
  unfolding apply_record
  record-Keeps p w away h s = elim (Bool-cases (is_str (lookup "status" p) pending_status)) [
    | inl e ↦
        let first : n ≤ 1 = rw (← phase_pending (lookup "status" p) e) h in
        rw e (
          window-Keeps (as_str (lookup "applyAt" p)) (settle dates repo did rkey now p) w s
            (settle-Keeps p w first away s))
    | inr e ↦ rw e s
  ]

  -- A lazy application never takes the proposal back to an earlier phase.
  pub apply_locked-Keeps : KeepsHere (apply_locked dates repo did rkey now)
  unfolding apply_locked apply_row
  apply_locked-Keeps w s = rw s.found (rw s.held (record-Keeps s.proposal w s.away s.reached s))

  close_round-Keeps :
      (p : Fields) (w : World)
      → n ≤ 3
      → IsAway rkey p
      → IsAtLeast did rkey n w.rows
      → IsAtLeast did rkey n (close_round repo did rkey now p w).1.rows
  unfolding close_round closed_override get
  close_round-Keeps p w h away s =
      let q = closed_override repo did rkey now p in
      Keeps-finish repo did rkey n (put_proposal_record repo did rkey q)
        "community.proposal.overrideExpired" did rkey true
        (Keeps-put repo did rkey n q (rw (phase-closed_override repo did rkey now p) h)
          (simp lookup-put away))
        w s

  close_record-Keeps :
      (p : Fields) (w : World)
      → n ≤ 3
      → IsAway rkey p
      → IsAtLeast did rkey n w.rows
      → IsAtLeast did rkey n (close_record repo did rkey now (obj p) w).1.rows
  unfolding close_record
  close_record-Keeps p w h away s =
      elim (Bool-cases (
        is_str (lookup "status" p) override_status
        && has_expired now (as_str (lookup "overrideExpiresAt" p)))) [
          | inl e ↦ rw e (close_round-Keeps p w h away s)
          | inr e ↦ rw e s
        ]

  -- The end of an override round never takes the proposal back.
  pub close_locked-Keeps : KeepsHere (close_locked repo did rkey now)
  unfolding close_locked close_row
  close_locked-Keeps w s =
      let far : n ≤ 3 = omega (arith, s.reached, phase-le (lookup "status" s.proposal)) in
      rw s.found (rw s.held (close_record-Keeps s.proposal w far s.away s))
