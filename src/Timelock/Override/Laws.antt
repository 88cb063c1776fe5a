-- ===== src/Timelock/Override/Laws.antt =====
-- The end of an override round, over all answers.
use openfederation_pds.Base.{
  refl, inl, inr, Option-cases, sym, ◌∙◌, eq_iff, arith, arith, ◌≢◌, ◌≡◌, Bool, true, false, ◌&&◌,
  Option, none, some, [], ◌∷◌, String, text_lt, if◌then◌else◌,
}
use openfederation_pds.Json.{
  lookup-put, eq-str_of_as_str, is_str_iff, Json, str, obj, Fields, get, lookup, as_str, is_str,
}
use openfederation_pds.Rules.{proposal_collection}
use openfederation_pds.Index.{apply_ops, Row, Repo, World, Act, find_row, apply_writes, audit_log}
use openfederation_pds.Timelock.Objections.{override_status}
use openfederation_pds.Timelock.Override.{
  close_round, has_expired, closed_override, close_record, close_row, close_locked, preview_round,
  close_expired_override,
}
use openfederation_pds.Timelock.Apply.{proposal_write_op, put_proposal_record}

module _ (repo : Repo) (did rkey now : String) where
  -- The community's proposal is in its override round and the round has run out of time.
  pub record IsExpiredRound (w w' : World) : Type 0 where
    pub row : Row
    pub proposal : Fields
    pub expires_at : String
    pub found : find_row did proposal_collection rkey w.rows ≡ some row
    pub held : row.rec ≡ obj proposal
    pub round : lookup "status" proposal ≡ str override_status
    pub ends : lookup "overrideExpiresAt" proposal ≡ str expires_at
    pub stated : expires_at ≢ ""
    pub over : text_lt now expires_at ≡ false
    pub rejects : lookup "status" (closed_override repo did rkey now proposal) ≡ str "rejected"
    pub resolved : lookup "resolvedAt" (closed_override repo did rkey now proposal) ≡ str now
    pub committed :
        apply_ops repo did
          (proposal_write_op w.rows did rkey (closed_override repo did rkey now proposal) ∷ [])
          w.rows
        ≡ some w'.rows

  closed_override-status :
      (proposal : Fields)
      → lookup "status" (closed_override repo did rkey now proposal) ≡ str "rejected"
  unfolding closed_override
  closed_override-status proposal = simp lookup-put

  closed_override-resolved :
      (proposal : Fields)
      → lookup "resolvedAt" (closed_override repo did rkey now proposal) ≡ str now
  unfolding closed_override
  closed_override-resolved proposal = simp lookup-put

  expired_parts :
      (expires_at : String)
      → has_expired now (some expires_at) ≡ true
      → (expires_at ≢ "") × (text_lt now expires_at ≡ false)
  unfolding has_expired
  expired_parts expires_at h = ground (arith, eq_iff expires_at "")

  in_round :
      (proposal : Fields) (w w' : World)
      → close_record repo did rkey now (obj proposal) w ≡ (some true, w')
      → is_str (lookup "status" proposal) override_status ≡ true
  unfolding close_record
  in_round proposal w w' h = ground arith

  round-committed :
      (proposal : Fields) (w w' : World) (b : Bool)
      → close_round repo did rkey now proposal w ≡ (some b, w')
      → (b ≡ true)
        × (apply_ops repo did
              (proposal_write_op w.rows did rkey (closed_override repo did rkey now proposal) ∷ [])
              w.rows
            ≡ some w'.rows)
  unfolding close_round put_proposal_record apply_writes audit_log
  round-committed proposal w w' b h = ground arith

  due_round :
      (proposal : Fields) (w w' : World)
      → close_record repo did rkey now (obj proposal) w ≡ (some true, w')
      → (has_expired now (as_str (lookup "overrideExpiresAt" proposal)) ≡ true)
        × (close_round repo did rkey now proposal w ≡ (some true, w'))
  unfolding close_record
  due_round proposal w w' h = ground arith

  close_record-closed :
      (rec : Json) (w w' : World)
      → close_record repo did rkey now rec w ≡ (some true, w')
      → (proposal : Fields) × (expires_at : String) × (rec ≡ obj proposal)
        × (lookup "status" proposal ≡ str override_status)
        × (lookup "overrideExpiresAt" proposal ≡ str expires_at)
        × (expires_at ≢ "")
        × (text_lt now expires_at ≡ false)
        × (apply_ops repo did
              (proposal_write_op w.rows did rkey (closed_override repo did rkey now proposal) ∷ [])
              w.rows
            ≡ some w'.rows)
  unfolding close_record
  close_record-closed (obj proposal) w w' h =
      elim (Option-cases (as_str (lookup "overrideExpiresAt" proposal))) [
        | inl absent ↦ let idle = rw (absent, has_expired) at (due_round proposal w w' h).0 in cc
        | inr (expires_at, stated) ↦
            let (due, closing) = due_round proposal w w' h in
            let (_, committed) = round-committed proposal w w' true closing in
            let (full, over) = expired_parts expires_at (rw stated at due) in
            (
              proposal,
              expires_at,
              refl,
              (is_str_iff _ _).0 (in_round proposal w w' h),
              eq-str_of_as_str _ _ stated,
              full,
              over,
              committed,
            )
      ]
  close_record-closed rec w w' h = cc

  close_record-idle :
      (rec : Json) (w w' : World) → close_record repo did rkey now rec w ≡ (some false, w') → w' ≡ w
  unfolding close_record
  close_record-idle (obj proposal) w w' h = ground (arith, round-committed proposal w w' false)
  close_record-idle rec w w' h = cc

  preview_record :
      (rec : Json) (again : Act Bool) (w : World)
      → again w ≡ close_record repo did rkey now rec w
      → (if is_str (get "status" rec) override_status
            && has_expired now (as_str (get "overrideExpiresAt" rec))
          then again w
          else (some false, w))
        ≡ close_record repo did rkey now rec w
  unfolding close_record get is_str
  preview_record (obj proposal) again w h = ground arith
  preview_record rec again w h = refl

  preview-locked :
      (o : Option Row) (w : World)
      → find_row did proposal_collection rkey w.rows ≡ o
      → preview_round repo did rkey now o w ≡ close_row repo did rkey now o w
  unfolding preview_round close_row
  preview-locked none w e = refl
  preview-locked (some row) w e =
      preview_record row.rec (close_locked repo did rkey now) w
        (unfold close_locked close_row in rw e refl)

  -- The unlocked read of `closeExpiredOverride` changes no answer and no effect.
  pub close_expired_override-locked :
      (w : World) → close_expired_override repo did rkey now w ≡ close_locked repo did rkey now w
  unfolding close_expired_override close_locked
  close_expired_override-locked w =
      preview-locked (find_row did proposal_collection rkey w.rows) w refl

  -- What an answer of the call says of its effect.
  abbrev pub Closing : Bool → World → World → Type 0
  Closing true w w' = IsExpiredRound w w'
  Closing false w w' = w' ≡ w

  row_closes :
      (o : Option Row) (w w' : World) (closed : Bool)
      → find_row did proposal_collection rkey w.rows ≡ o
      → close_row repo did rkey now o w ≡ (some closed, w')
      → Closing closed w w'
  unfolding close_row
  row_closes none w w' true e h = cc
  row_closes none w w' false e h = cc
  row_closes (some row) w w' true e h =
      let (proposal, expires_at, held, round, ends, stated, over, committed) =
        close_record-closed row.rec w w' h in
      record {
        row = row;
        proposal = proposal;
        expires_at = expires_at;
        found = e;
        held = held;
        round = round;
        ends = ends;
        stated = stated;
        over = over;
        rejects = closed_override-status proposal;
        resolved = closed_override-resolved proposal;
        committed = committed;
      }
  row_closes (some row) w w' false e h = close_record-idle row.rec w w' h

  -- A call of `closeExpiredOverride` that answers `true` has found the proposal in a round whose end
  -- has come, and the rows after it are those of the one commit that sets its status to `rejected` and its time of resolution to `now`;
  -- a call that answers `false` has changed nothing.
  pub close_expired_override_lem :
      (w w' : World) (closed : Bool)
      → close_expired_override repo did rkey now w ≡ (some closed, w')
      → Closing closed w w'
  unfolding close_locked
  close_expired_override_lem w w' closed h =
      row_closes (find_row did proposal_collection rkey w.rows) w w' closed refl
        (sym (close_expired_override-locked w) ∙ h)
