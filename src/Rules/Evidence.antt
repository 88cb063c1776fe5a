-- ===== src/Rules/Evidence.antt =====
-- Which vote and objection records count: `checkVoteRecord` and `checkObjectionRecord`.
use openfederation_pds.Base.{
  ap, inr, str_eq, Bool-cases, inl, ◌⊎◌, ℕ, ◌≤◌, ◌<◌, ◌≡◌, refl, ◌≢◌, ◌↔◌, true, false, Option,
  some, none, String, eq_iff, text_lt, arith, includes,
}
use openfederation_pds.Json.{Json, str, get, as_str, is_str, is_str_iff, eq-str_of_as_str}
use openfederation_pds.Dates.{Dates, last_plain, iso_lt_iff}
use openfederation_pds.Rules.{
  VoteChoice, for, against, VoteEligibility, countable_vote, vote_value, before_epoch,
  text_or_empty, cites_proposal, check_cid, check_vote, check_vote_record, proposal_collection,
  ObjectionEligibility, countable_objection, check_objection_record,
}

-- The texts of the two choices.
abbrev pub choice_text : VoteChoice → String
choice_text for = "for"
choice_text against = "against"

-- A time that no epoch rules out: there is none, it is the empty text, or it is not after the time.
abbrev pub IsCurrent : Option String → String → Type 0
IsCurrent epoch at =
    (epoch ≡ none)
    ⊎ ((epoch ≡ some "") ⊎ ((e : String) × (epoch ≡ some e) × (text_lt at e ≡ false)))

-- What a vote record has to say: one of the two choices, this proposal, a known state of it, and a
-- time that the epoch does not rule out.
pub record IsCitedVote (rec : Json) (ctx : VoteEligibility) (vote : VoteChoice) (cid : String)
    (at : String) : Type 0 where
  pub chosen : get "vote" rec ≡ str (choice_text vote)
  pub proposal : get "uri" (get "proposal" rec) ≡ str ctx.proposal_uri
  pub collection : get "proposalCollection" rec ≡ str proposal_collection
  pub state : get "cid" (get "proposal" rec) ≡ str cid
  pub known : includes cid ctx.known_cids ≡ true
  pub created : text_or_empty (get "createdAt" rec) ≡ at
  pub current : IsCurrent ctx.epoch at

pub before_epoch_sound :
    (epoch : Option String) (at : String) → before_epoch epoch at ≡ false → IsCurrent epoch at
unfolding before_epoch
before_epoch_sound none at h = inl refl
before_epoch_sound (some e) at h = elim (Bool-cases (str_eq e "")) [
  | inl b ↦ inr (inl (ap some ((eq_iff e "").0 b)))
  | inr b ↦ inr (inr (e, refl, rw b at h))
]

before_epoch_complete :
    (epoch : Option String) (at : String) → IsCurrent epoch at → before_epoch epoch at ≡ false
unfolding before_epoch
before_epoch_complete epoch at (inl e) = rw e refl
before_epoch_complete epoch at (inr (inl e)) = rw e refl
before_epoch_complete epoch at (inr (inr (e, same, late))) = rw same (ground arith)

vote_value_sound :
    (v : Json) (vote : VoteChoice) → vote_value v ≡ some vote → v ≡ str (choice_text vote)
unfolding vote_value
vote_value_sound v vote h = ground (arith, is_str_iff v "for", is_str_iff v "against")

vote_value_complete : (vote : VoteChoice) → vote_value (str (choice_text vote)) ≡ some vote
unfolding vote_value is_str
vote_value_complete for = refl
vote_value_complete against = refl

check_cid_iff :
    (rec : Json) (ctx : VoteEligibility) (v vote : VoteChoice) (c : Option String) (cid at : String)
    → (check_cid rec ctx v c ≡ countable_vote vote cid at) ↔ (
        (c ≡ some cid)
        × (v ≡ vote)
        × (includes cid ctx.known_cids ≡ true)
        × (text_or_empty (get "createdAt" rec) ≡ at)
        × (before_epoch ctx.epoch at ≡ false))
unfolding check_cid
check_cid_iff rec ctx v vote none cid at = (λ h. cc, λ e. cc (e.0))
check_cid_iff rec ctx v vote (some c) cid at = ground (arith)

check_vote_sound :
    (rec : Json) (ctx : VoteEligibility) (o : Option VoteChoice) (vote : VoteChoice)
    (cid at : String)
    → vote_value (get "vote" rec) ≡ o
    → check_vote rec ctx o ≡ countable_vote vote cid at
    → IsCitedVote rec ctx vote cid at
unfolding check_vote cites_proposal
check_vote_sound rec ctx none vote cid at e h = cc
check_vote_sound rec ctx (some v) vote cid at e h = ground (
  arith,
  before_epoch_sound ctx.epoch at,
  vote_value_sound (get "vote" rec) v,
  is_str_iff (get "uri" (get "proposal" rec)) ctx.proposal_uri,
  is_str_iff (get "proposalCollection" rec) proposal_collection,
  check_cid_iff rec ctx v vote (as_str (get "cid" (get "proposal" rec))) cid at,
  eq-str_of_as_str (get "cid" (get "proposal" rec)) cid,
)

check_vote_complete :
    (rec : Json) (ctx : VoteEligibility) (vote : VoteChoice) (cid at : String)
    → IsCitedVote rec ctx vote cid at
    → check_vote_record rec ctx ≡ countable_vote vote cid at
unfolding check_vote_record cites_proposal as_str
check_vote_complete rec ctx vote cid at c =
    rw (c.chosen, vote_value_complete vote)
      (ground (
        arith,
        before_epoch_complete ctx.epoch at c.current,
        is_str_iff (get "uri" (get "proposal" rec)) ctx.proposal_uri,
        is_str_iff (get "proposalCollection" rec) proposal_collection,
        (check_cid_iff rec ctx vote vote (some cid) cid at).1,
      ))

-- A vote record counts exactly when it names one of the two choices, this proposal in the proposal
-- collection and a known state of it, and its time is not before the epoch, where there is one that is
-- not the empty text; what is counted is the choice, the cited state and the time that the record names.
pub check_vote_record_iff :
    (rec : Json) (ctx : VoteEligibility) (vote : VoteChoice) (cid at : String)
    → (check_vote_record rec ctx ≡ countable_vote vote cid at) ↔ IsCitedVote rec ctx vote cid at
unfolding check_vote_record
check_vote_record_iff rec ctx vote cid at = (
  λ h. check_vote_sound rec ctx (vote_value (get "vote" rec)) vote cid at refl h,
  λ c. check_vote_complete rec ctx vote cid at c,
)

-- An objection record that is addressed to this proposal and this decision.
pub record IsAddressed (rec : Json) (ctx : ObjectionEligibility) : Type 0 where
  pub proposal : get "uri" (get "proposal" rec) ≡ str ctx.proposal_uri
  pub collection : get "proposalCollection" rec ≡ str proposal_collection
  pub decision : get "uri" (get "decision" rec) ≡ str ctx.decision_uri
  pub state : get "cid" (get "decision" rec) ≡ str ctx.decision_cid

-- An objection counts exactly when it is addressed to the decision and has a time in the window: not
-- empty, not before the resolution and before the instant of application.
pub check_objection_record_iff :
    (rec : Json) (ctx : ObjectionEligibility) (at : String)
    → (check_objection_record rec ctx ≡ countable_objection at) ↔ (
        IsAddressed rec ctx
        × (text_or_empty (get "createdAt" rec) ≡ at)
        × (at ≢ "")
        × (text_lt at ctx.resolved_at ≡ false)
        × (text_lt at ctx.apply_at ≡ true))
unfolding check_objection_record cites_proposal
check_objection_record_iff rec ctx at = ground (
  arith,
  eq_iff (text_or_empty (get "createdAt" rec)) "",
  is_str_iff (get "uri" (get "proposal" rec)) ctx.proposal_uri,
  is_str_iff (get "proposalCollection" rec) proposal_collection,
  is_str_iff (get "uri" (get "decision" rec)) ctx.decision_uri,
  is_str_iff (get "cid" (get "decision" rec)) ctx.decision_cid,
)

-- With times as the clock writes them, in years of four digits: an objection addressed to the decision
-- counts exactly when its instant lies in the half-open window from the resolution to the application.
pub objection_window_iff :
    (dates : Dates) (rec : Json) (ctx : ObjectionEligibility) (from to at : ℕ)
    → from ≤ last_plain
    → to ≤ last_plain
    → at ≤ last_plain
    → ctx.resolved_at ≡ dates.iso from
    → ctx.apply_at ≡ dates.iso to
    → get "createdAt" rec ≡ str (dates.iso at)
    → IsAddressed rec ctx
    → (check_objection_record rec ctx ≡ countable_objection (dates.iso at))
      ↔ ((from ≤ at) × (at < to))
unfolding text_or_empty
objection_window_iff dates rec ctx from to at hf ht ha ef et ec addressed =
    let created : text_or_empty (get "createdAt" rec) ≡ dates.iso at = rw ec refl in
    let full : dates.iso at ≢ "" = dates.iso_full at in
    grind (
      arith,
      check_objection_record_iff rec ctx (dates.iso at),
      iso_lt_iff dates at from ha hf,
      iso_lt_iff dates at to ha ht,
    )
