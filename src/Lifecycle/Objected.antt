-- ===== src/Lifecycle/Objected.antt =====
-- The phase of a proposal through an objection to its application.
use openfederation_pds.Base.{
  ℕ, ◌≤◌, ◌≡◌, refl, inl, inr, Bool-cases, Option-cases, Bool, true, Option, none, some, List, [],
  ◌∷◌, String, arith, length, text_lt,
}
use openfederation_pds.Json.{Json, obj, Fields, lookup, is_str}
use openfederation_pds.Dates.{Dates}
use openfederation_pds.Index.{Row, Repo, Act, ◌>>=◌, pure, put_record, write, audit_log}
use openfederation_pds.Rules.{objection_collection, objection_threshold}
use openfederation_pds.Records.{ObjectionRecordInput, write_objection_record, objection_record_json}
use openfederation_pds.Timelock.Objections.{
  CountedObjection, countable_objections, pending_status, override_status,
}
use openfederation_pds.Timelock.Apply.{settings_or_undefined, put_proposal_record, reaches}
use openfederation_pds.Timelock.Merge.{community_settings_record}
use openfederation_pds.Lifecycle.{
  phase, IsAway, Keeps, Keeps-then, Keeps-audit, Keeps-put, Keeps-writes,
}
use openfederation_pds.Lifecycle.Applied.{phase_pending, held_from, IsHeldFrom}
use openfederation_pds.Objecting.{
  Contest, ObjectionAnswer, able_refusal, status_refusal, contest_of, audit_round, write_hold,
  hold_if_reached, register, after_record, object_now, has_objected, object_in_window,
  object_in_status, object_to_record, object_to_row, object_locked, registered,
}

-- What passes the test of the status is pending.
pub status_refusal-none :
    (p : Fields) → status_refusal p ≡ none → is_str (lookup "status" p) pending_status ≡ true
unfolding status_refusal
status_refusal-none p h = ground arith

module _ (dates : Dates) (repo : Repo) (check : String → Option Bool) (did rkey objector : String)
    (reason : Option String) (tid : String) (t : ℕ) (n : ℕ) where
  abbrev KeepsHere : {A : Type 0} → Act A → Type 0
  KeepsHere m = Keeps repo did rkey n m

  audit_round-Keeps :
      (held : Fields) → KeepsHere (audit_round dates repo check did rkey objector reason tid t held)
  unfolding audit_round audit_log
  audit_round-Keeps held w s = elim (Bool-cases (is_str (lookup "status" held) override_status)) [
    | inl e ↦ rw e s
    | inr e ↦ rw e s
  ]

  write_hold-Keeps :
      (p : Fields) (held : Option Fields)
      → n ≤ 1
      → IsAway rkey p
      → ((q : Fields) → held ≡ some q → IsHeldFrom rkey p q)
      → KeepsHere (write_hold dates repo check did rkey objector reason tid t held)
  unfolding write_hold
  write_hold-Keeps p none h away from w s = s
  write_hold-Keeps p (some q) h away from w s =
      let f = from q refl in
      let audit = audit_round dates repo check did rkey objector reason tid t q in
      Keeps-then repo did rkey n (put_proposal_record repo did rkey q)
        (λ _. audit >>= λ _. pure (lookup "status" q))
        (Keeps-put repo did rkey n q (omega (arith, f.far, h)) (f.about away))
        (λ _.
          Keeps-then repo did rkey n audit (λ _. pure (lookup "status" q)) (audit_round-Keeps q)
            (λ _ w s. s))
        w s

  hold_if_reached-Keeps :
      (p : Fields) (settings : Json) (os : List CountedObjection)
      → n ≤ 1
      → IsAway rkey p
      → KeepsHere (hold_if_reached dates repo check did rkey objector reason tid t p settings os)
  unfolding hold_if_reached
  hold_if_reached-Keeps p settings os h away w s =
      elim (Bool-cases (reaches os (objection_threshold settings))) [
        | inl e ↦ rw e (
            write_hold-Keeps p _ h away
              (λ q held. held_from dates w.rows did rkey p settings os (dates.iso t) q held) w s)
        | inr e ↦ rw e s
      ]

  register-Keeps :
      (p : Fields)
      → n ≤ 1
      → IsAway rkey p
      → KeepsHere (register dates repo check did rkey objector reason tid t p)
  unfolding register
  register-Keeps p h away w s =
      let settings = settings_or_undefined (community_settings_record w.rows did) in
      let os = countable_objections w.rows did rkey (obj p) in
      let answer : Json → Act ObjectionAnswer = λ status. pure (
        registered (record {
          status = status;
          count = length os;
          threshold = objection_threshold settings;
        })) in
      Keeps-then repo did rkey n
        (hold_if_reached dates repo check did rkey objector reason tid t p settings os)
        (λ status. audit_log "community.proposal.objection" did rkey >>= λ _. answer status)
        (hold_if_reached-Keeps p settings os h away)
        (λ status.
          Keeps-then repo did rkey n (audit_log "community.proposal.objection" did rkey)
            (λ _. answer status)
            (Keeps-audit repo did rkey n "community.proposal.objection" did rkey) (λ _ w s. s))
        w s

  after_record-Keeps :
      (p : Fields) (done : Option (Unit {0}))
      → n ≤ 1
      → IsAway rkey p
      → KeepsHere (after_record dates repo check did rkey objector reason tid t p done)
  unfolding after_record
  after_record-Keeps p none h away w s = s
  after_record-Keeps p (some u) h away w s = register-Keeps p h away w s

  write_objection_record-Keeps :
      (input : ObjectionRecordInput) (created_at : String)
      → KeepsHere (write_objection_record repo input tid created_at)
  unfolding write_objection_record put_record
  write_objection_record-Keeps input created_at =
      Keeps-writes repo did rkey n input.objector_did
        (write objection_collection tid (objection_record_json input created_at) ∷ []) (refl, tt)

  object_now-Keeps :
      (row : Row) (p : Fields) (c : Contest)
      → n ≤ 1
      → IsAway rkey p
      → KeepsHere (object_now dates repo check did rkey objector reason tid t row p c)
  unfolding object_now
  object_now-Keeps row p c h away w s =
      after_record-Keeps p _ h away _ (write_objection_record-Keeps _ _ w s)

  in_window-Keeps :
      (row : Row) (p : Fields) (c : Option Contest)
      → n ≤ 1
      → IsAway rkey p
      → KeepsHere (object_in_window dates repo check did rkey objector reason tid t row p c)
  unfolding object_in_window
  in_window-Keeps row p none h away w s = s
  in_window-Keeps row p (some c) h away w s = elim (Bool-cases (text_lt (dates.iso t) c.apply_at)) [
    | inr e ↦ rw e s
    | inl e ↦
        elim (Bool-cases (has_objected dates repo check did rkey objector reason tid t w.rows p)) [
          | inl e2 ↦ rw e (rw e2 s)
          | inr e2 ↦ elim (Option-cases (able_refusal (check objector))) [
            | inl able ↦ rw e (rw e2 (rw able (object_now-Keeps row p c h away w s)))
            | inr (refusal, unable) ↦ rw e (rw e2 (rw unable s))
          ]
        ]
  ]

  in_status-Keeps :
      (row : Row) (p : Fields)
      → n ≤ phase (lookup "status" p)
      → IsAway rkey p
      → KeepsHere (
          object_in_status dates repo check did rkey objector reason tid t row p (status_refusal p))
  unfolding object_in_status
  in_status-Keeps row p h away w s = elim (Option-cases (status_refusal p)) [
    | inl e ↦
        let first : n ≤ 1 = rw (← phase_pending (lookup "status" p) (status_refusal-none p e)) h in
        rw e (in_window-Keeps row p (contest_of p) first away w s)
    | inr (refusal, e) ↦ rw e s
  ]

  -- An objection never takes the proposal back to an earlier phase.
  pub object_locked-Keeps :
      KeepsHere (object_locked dates repo check did rkey objector reason tid t)
  unfolding object_locked object_to_row object_to_record
  object_locked-Keeps w s =
      rw s.found (rw s.held (in_status-Keeps s.row s.proposal s.reached s.away w s))
