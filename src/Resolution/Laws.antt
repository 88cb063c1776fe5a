-- ===== src/Resolution/Laws.antt =====
-- How often a voter is counted, how a scan treats the votes that stand, and how the records and the
-- cache of a proposal are compared.
use openfederation_pds.Base.{
  eq_refl, text_lt_irrefl, text_lt_connected, text_lt_trans, ℕ, suc, ◌+◌, ◌≤◌, ◌≡◌, refl, sym, ◌∙◌,
  ◌↔◌, ◌≢◌, inl, inr, true, false, Option, none, some, List, [], ◌∷◌, String, str_eq, eq_iff,
  text_lt, arith, length, if◌then◌else◌, Bool-cases,
}
use openfederation_pds.Json.{Num, Json, as_array, get}
use openfederation_pds.Rules.{
  VoteEligibility, VoteEligibilityResult, VoteChoice, Outcome, approved, rejected, countable_vote,
  uncountable_vote, check_vote_record, vote_order_key, decide_outcome,
}
use openfederation_pds.Index.{Row}
use openfederation_pds.Resolution.{
  CountedVote, RecordTally, Standing, Scan, standing_of, set_standing, scan_row, scan_rows, scan_of,
  stands_before, insert_standing, sort_standings, votes_of, vote_rows, tally_from_vote_records,
  same_outcome, agreed_decision, decide_from_records, counted_vote,
}

-- How many of the votes are a voter's.
unfoldable pub votes_by : String → List CountedVote → ℕ
votes_by voter [] = 0
votes_by voter (v ∷ vs) =
    let rest = votes_by voter vs in if str_eq v.voter voter then suc rest else rest

unfoldable standings_by : String → List Standing → ℕ
standings_by voter [] = 0
standings_by voter (s ∷ ss) =
    let rest = standings_by voter ss in if str_eq s.vote.voter voter then suc rest else rest

standings_by-insert :
    (voter : String) (n : Standing) (ss : List Standing)
    → standings_by voter (insert_standing n ss) ≡ standings_by voter (n ∷ ss)
unfolding standings_by insert_standing
standings_by-insert voter n [] = refl
standings_by-insert voter n (s ∷ ss) = ground (arith, standings_by-insert voter n ss)

standings_by-sort :
    (voter : String) (ss : List Standing)
    → standings_by voter (sort_standings ss) ≡ standings_by voter ss
unfolding standings_by sort_standings
standings_by-sort voter [] = refl
standings_by-sort voter (s ∷ ss) =
    ground (arith, standings_by-insert voter s (sort_standings ss), standings_by-sort voter ss)

votes_by-sides :
    (voter : String) (ss : List Standing)
    → votes_by voter (votes_of true ss) + votes_by voter (votes_of false ss) ≡ standings_by voter ss
unfolding votes_by votes_of standings_by
votes_by-sides voter [] = refl
votes_by-sides voter (s ∷ ss) = ground (arith, votes_by-sides voter ss)

standings_by-set_other :
    (voter : String) (n : Standing) (ss : List Standing)
    → str_eq n.vote.voter voter ≡ false
    → standings_by voter (set_standing n ss) ≡ standings_by voter ss
unfolding standings_by set_standing
standings_by-set_other voter n [] h = ground arith
standings_by-set_other voter n (s ∷ ss) h =
    ground (arith, standings_by-set_other voter n ss h, eq_iff s.vote.voter n.vote.voter)

standings_by-set_same :
    (voter : String) (n : Standing) (ss : List Standing)
    → str_eq n.vote.voter voter ≡ true
    → standings_by voter ss ≤ 1
    → standings_by voter (set_standing n ss) ≤ 1
unfolding standings_by set_standing
standings_by-set_same voter n [] h k = ground arith
standings_by-set_same voter n (s ∷ ss) h k = ground (
  arith,
  standings_by-set_same voter n ss h,
  eq_iff s.vote.voter n.vote.voter,
  eq_iff s.vote.voter voter,
  eq_iff n.vote.voter voter,
)

standings_by-set :
    (voter : String) (n : Standing) (ss : List Standing)
    → standings_by voter ss ≤ 1
    → standings_by voter (set_standing n ss) ≤ 1
standings_by-set voter n ss k = elim (Bool-cases (str_eq n.vote.voter voter)) [
  | inl e ↦ standings_by-set_same voter n ss e k
  | inr e ↦ rw (standings_by-set_other voter n ss e) k
]

standings_by-scan_row :
    (voter : String) (row : Row) (r : VoteEligibilityResult) (scan : Scan)
    → standings_by voter scan.counted ≤ 1
    → standings_by voter (scan_row row r scan).counted ≤ 1
unfolding scan_row
standings_by-scan_row voter row (uncountable_vote reason) scan k = ground arith
standings_by-scan_row voter row (countable_vote vote cid at) scan k =
    let key = vote_order_key at row.rkey in
    ground (
      arith,
      standings_by-set voter (record { vote = counted_vote row vote cid; key = key }) scan.counted
          k,
    )

standings_by-scan_rows :
    (voter : String) (ctx : VoteEligibility) (rows : List Row) (scan : Scan)
    → standings_by voter scan.counted ≤ 1
    → standings_by voter (scan_rows ctx rows scan).counted ≤ 1
unfolding scan_rows
standings_by-scan_rows voter ctx [] scan k = k
standings_by-scan_rows voter ctx (row ∷ rows) scan k =
    standings_by-scan_rows voter ctx rows (scan_row row (check_vote_record row.rec ctx) scan)
      (standings_by-scan_row voter row (check_vote_record row.rec ctx) scan k)

-- Whatever rows the store has and however often a voter has written a record: no voter is counted more
-- than once, on both sides together.
pub one_vote :
    (rows : List Row) (did rkey : String) (proposal : Json) (proposal_cid voter : String)
    → votes_by voter (tally_from_vote_records rows did rkey proposal proposal_cid).votes_for
        + votes_by voter (tally_from_vote_records rows did rkey proposal proposal_cid).votes_against
      ≤ 1
unfolding tally_from_vote_records scan_of standings_by
one_vote rows did rkey proposal proposal_cid voter =
    let counted = (scan_of rows did rkey proposal proposal_cid).counted in
    rw (votes_by-sides voter (sort_standings counted), standings_by-sort voter counted)
      (standings_by-scan_rows voter _ (vote_rows did rkey rows)
        (record { counted = []; rejected = [] }) (omega arith))

same_outcome-eq : (a b : Option Outcome) → same_outcome a b ≡ true → a ≡ b
unfolding same_outcome
same_outcome-eq none none h = refl
same_outcome-eq none (some o) h = cc
same_outcome-eq (some approved) (some approved) h = refl
same_outcome-eq (some rejected) (some rejected) h = refl
same_outcome-eq a b h = cc

same_outcome_refl : (a : Option Outcome) → same_outcome a a ≡ true
unfolding same_outcome
same_outcome_refl none = refl
same_outcome_refl (some approved) = refl
same_outcome_refl (some rejected) = refl

agreed_decision_iff :
    (a b : Option Outcome) (o : Outcome)
    → (((agreed_decision a b).outcome ≡ some o) ↔ ((a ≡ some o) × (b ≡ some o)))
      × (((agreed_decision a b).deferred ≡ true) ↔ (a ≢ b))
unfolding agreed_decision
agreed_decision_iff a b o = elim (Bool-cases (same_outcome a b)) [
  | inl e ↦
      let same : a ≡ b = same_outcome-eq a b e in
      rw e ((λ h. (h, sym same ∙ h), λ (h, _). h), (λ h. cc, λ other. absurd (other same)))
  | inr e ↦
      let other : a ≢ b = λ same. cc (same_outcome_refl a, same, e) in
      rw e ((λ h. cc, λ (h, k). absurd (other (h ∙ sym k))), (λ h. other, λ h. refl))
]

-- A proposal is decided by an outcome exactly when the tally of the records and the cache both give
-- that outcome; and it is deferred exactly when they differ.
pub decide_from_records_iff :
    (tally : RecordTally) (proposal : Json) (quorum : Num) (o : Outcome)
    → let by_records =
        decide_outcome (length tally.votes_for) (length tally.votes_against) quorum in
      let by_cache =
        decide_outcome
          (length (as_array (get "votesFor" proposal)))
          (length (as_array (get "votesAgainst" proposal)))
          quorum in
      let decision = decide_from_records tally proposal quorum in
      ((decision.outcome ≡ some o) ↔ ((by_records ≡ some o) × (by_cache ≡ some o)))
      × ((decision.deferred ≡ true) ↔ (by_records ≢ by_cache))
unfolding decide_from_records
decide_from_records_iff tally proposal quorum o = agreed_decision_iff _ _ o

not_lt_trans : (a b c : String) → text_lt b c ≡ false → text_lt a b ≡ false → text_lt a c ≡ false
not_lt_trans a b c h k = ground (arith, text_lt_trans b a c, text_lt_connected a b)

pub standing_of-set :
    (voter : String) (n : Standing) (ss : List Standing)
    → standing_of voter (set_standing n ss)
      ≡ (if str_eq n.vote.voter voter then some n else standing_of voter ss)
unfolding standing_of set_standing
standing_of-set voter n [] = ground arith
standing_of-set voter n (s ∷ ss) = ground (
  arith,
  standing_of-set voter n ss,
  eq_iff s.vote.voter n.vote.voter,
  eq_iff s.vote.voter voter,
  eq_iff n.vote.voter voter,
)

not_lt-lowered :
    (o : Option Standing) (key new : String)
    → stands_before o key ≡ true
    → stands_before o new ≡ false
    → text_lt key new ≡ false
unfolding stands_before
not_lt-lowered none key new h k = cc
not_lt-lowered (some s) key new h k = ground (arith, text_lt_trans key new s.key)

pub scan_row-keeps :
    (voter key : String) (row : Row) (r : VoteEligibilityResult) (scan : Scan)
    → stands_before (standing_of voter scan.counted) key ≡ true
    → stands_before (standing_of voter (scan_row row r scan).counted) key ≡ true
unfolding scan_row stands_before counted_vote
scan_row-keeps voter key row (uncountable_vote reason) scan h = ground arith
scan_row-keeps voter key row (countable_vote vote cid at) scan h =
    let new = vote_order_key at row.rkey in
    let n : Standing = record { vote = counted_vote row vote cid; key = new } in
    ground (
      arith,
      standing_of-set voter n scan.counted,
      not_lt-lowered (standing_of voter scan.counted) key new h,
      eq_iff row.did voter,
    )

pub scan_row-sets :
    (row : Row) (vote : VoteChoice) (cid at : String) (scan : Scan)
    → stands_before
        (standing_of row.did (scan_row row (countable_vote vote cid at) scan).counted)
        (vote_order_key at row.rkey)
      ≡ true
unfolding scan_row stands_before counted_vote
scan_row-sets row vote cid at scan =
    let new = vote_order_key at row.rkey in
    let n : Standing = record { vote = counted_vote row vote cid; key = new } in
    ground (arith, standing_of-set row.did n scan.counted, text_lt_irrefl new, eq_refl row.did)
