-- ===== src/Lifecycle/Amended.antt =====
-- The phase of a proposal through an amendment.
use openfederation_pds.Base.{
  ℕ, ◌≤◌, ◌≡◌, refl, inl, inr, Bool-cases, Bool, false, not, ◌||◌, Option, none, some, String,
  str_eq,
}
use openfederation_pds.Json.{Json, obj, Fields, lookup, get, is_str, lookup-put, truthy}
use openfederation_pds.Dates.{Dates}
use openfederation_pds.Index.{Repo}
use openfederation_pds.Timelock.Apply.{put_proposal_record}
use openfederation_pds.Proposing.{written_proposal}
use openfederation_pds.Proposing.Amending.{
  amended_fields, write_amendment, amend_record, amend_row, amend_proposal,
}
use openfederation_pds.Lifecycle.{phase, IsAway, Keeps, Keeps-finish, Keeps-put}

lookup-amended_fields :
    (key : String) (p : Fields) (proposed : Json) (amender now : String) (reason : Option String)
    (expires_at : String)
    → str_eq "amendments" key ≡ false
    → str_eq "expiresAt" key ≡ false
    → str_eq "votesAgainst" key ≡ false
    → str_eq "votesFor" key ≡ false
    → str_eq "proposedRecord" key ≡ false
    → lookup key (amended_fields p proposed amender now reason expires_at) ≡ lookup key p
unfolding amended_fields
lookup-amended_fields key p proposed amender now reason expires_at h1 h2 h3 h4 h5 =
    simp (lookup-put, h1, h2, h3, h4, h5) refl

module _ (dates : Dates) (repo : Repo) (did rkey amender : String) (reason : Option String)
    (t n : ℕ) where
  write_amendment-Keeps :
      (p : Fields) (proposed : Json) (expires : Option String)
      → n ≤ phase (lookup "status" p)
      → IsAway rkey p
      → Keeps repo did rkey n
          (write_amendment dates repo did rkey amender reason t p proposed expires)
  unfolding write_amendment get
  write_amendment-Keeps p proposed none h away w s = s
  write_amendment-Keeps p proposed (some expires_at) h away w s =
      let q = amended_fields p proposed amender (dates.iso t) reason expires_at in
      let kept : (key : String) → Type 0 = λ key. lookup key q ≡ lookup key p in
      let status : kept "status" =
        lookup-amended_fields "status" p proposed amender (dates.iso t) reason expires_at refl refl
          refl refl refl in
      let collection : kept "targetCollection" =
        lookup-amended_fields "targetCollection" p proposed amender (dates.iso t) reason expires_at
          refl refl refl refl refl in
      let target : kept "targetRkey" =
        lookup-amended_fields "targetRkey" p proposed amender (dates.iso t) reason expires_at refl
          refl refl refl refl in
      Keeps-finish repo did rkey n (put_proposal_record repo did rkey q) "community.proposal.amend"
        did rkey (written_proposal rkey)
        (Keeps-put repo did rkey n q (rw status h) (rw collection (rw target away))) w s

  amend_record-Keeps :
      (p : Fields) (proposed : Json)
      → n ≤ phase (lookup "status" p)
      → IsAway rkey p
      → Keeps repo did rkey n (amend_record dates repo did rkey amender reason t proposed (obj p))
  unfolding amend_record
  amend_record-Keeps p proposed h away w s = elim (Bool-cases (is_str (lookup "status" p) "open")) [
    | inl e ↦ rw e (write_amendment-Keeps p proposed _ h away w s)
    | inr e ↦ rw e s
  ]

  -- An amendment never takes the proposal back to an earlier phase.
  pub amend_proposal-Keeps :
      (permitted : Bool) (proposed : Json)
      → Keeps repo did rkey n
          (amend_proposal dates repo did rkey amender reason t permitted proposed)
  unfolding amend_proposal amend_row
  amend_proposal-Keeps permitted (obj fs) w s =
      elim (Bool-cases (str_eq did "" || str_eq rkey "")) [
        | inl e ↦ rw e s
        | inr e ↦ elim (Bool-cases permitted) [
          | inr e2 ↦ rw e (rw e2 s)
          | inl e2 ↦ rw e (
              rw e2 (
                rw s.found
                  (rw s.held (amend_record-Keeps s.proposal (obj fs) s.reached s.away w s))))
        ]
      ]
  amend_proposal-Keeps permitted proposed w s =
      elim (Bool-cases (str_eq did "" || str_eq rkey "" || not (truthy proposed))) [
        | inl e ↦ rw e s
        | inr e ↦ rw e s
      ]
