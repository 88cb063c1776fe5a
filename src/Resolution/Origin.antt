-- ===== src/Resolution/Origin.antt =====
-- Where a vote that stands comes from: a countable record of its voter among the rows.
use mathlib.Core.List.{Memᴰ}
use openfederation_pds.Base.{
  ◌≡◌, refl, sym, ◌∙◌, true, some, List, [], ◌∷◌, String, arith, inl, inr, ◌⊎◌, Bool-cases, eq_iff,
  str_eq,
}
use openfederation_pds.Rules.{
  VoteEligibility, VoteEligibilityResult, VoteChoice, countable_vote, uncountable_vote,
  check_vote_record, vote_order_key, Reason,
}
use openfederation_pds.Index.{Row}
use openfederation_pds.Resolution.{
  Json, Standing, Scan, standing_of, scan_row, scan_rows, scan_of, stands_before, votes_on,
  row_before, insert_row, vote_rows, vote_context, counted_vote,
}
use openfederation_pds.Resolution.Laws.{standing_of-set}

-- One record of the voter, countable by itself, from which the vote and the key of a standing both come.
pub record ComesFromRecord (ctx : VoteEligibility) (rows : List Row) (voter : String) (s : Standing)
    : Type 0 where
  pub row : Row
  pub choice : VoteChoice
  pub cid : String
  pub at : String
  pub found : Memᴰ row rows
  pub owner : row.did ≡ voter
  pub countable : check_vote_record row.rec ctx ≡ countable_vote choice cid at
  pub stands : s ≡ record { vote = counted_vote row choice cid; key = vote_order_key at row.rkey }

-- Every standing of the voter in a scan comes from one of the rows.
abbrev AllCome : VoteEligibility → List Row → String → Scan → Type 0
AllCome ctx rows voter scan =
    (s : Standing) → standing_of voter scan.counted ≡ some s → ComesFromRecord ctx rows voter s

scan_row-uncountable :
    (row : Row) (reason : Reason) (scan : Scan)
    → (scan_row row (uncountable_vote reason) scan).counted ≡ scan.counted
unfolding scan_row
scan_row-uncountable row reason scan = ground arith

scan_row-countable :
    (voter : String) (row : Row) (vote : VoteChoice) (cid at : String) (scan : Scan)
    → (standing_of voter (scan_row row (countable_vote vote cid at) scan).counted
        ≡ standing_of voter scan.counted)
      ⊎ ((row.did ≡ voter)
          × (standing_of voter (scan_row row (countable_vote vote cid at) scan).counted
              ≡ some
                  (record { vote = counted_vote row vote cid; key = vote_order_key at row.rkey })))
unfolding scan_row counted_vote
scan_row-countable voter row vote cid at scan =
    let key = vote_order_key at row.rkey in
    let n : Standing = record { vote = counted_vote row vote cid; key = key } in
    elim (Bool-cases (stands_before (standing_of row.did scan.counted) key)) [
      | inl e ↦ rw e (inl refl)
      | inr e ↦ rw e (elim (Bool-cases (str_eq row.did voter)) [
        | inl same ↦ inr ((eq_iff row.did voter).0 same, rw (standing_of-set voter n, same) refl)
        | inr other ↦ inl (rw (standing_of-set voter n, other) refl)
      ])
    ]

AllCome-scan_row :
    (ctx : VoteEligibility) (rows : List Row) (voter : String) (row : Row)
    (judged : VoteEligibilityResult) (scan : Scan)
    → check_vote_record row.rec ctx ≡ judged
    → Memᴰ row rows
    → AllCome ctx rows voter scan
    → AllCome ctx rows voter (scan_row row judged scan)
AllCome-scan_row ctx rows voter row (uncountable_vote reason) scan e m k s h =
    k s (rw (scan_row-uncountable row reason scan) at h)
AllCome-scan_row ctx rows voter row (countable_vote vote cid at) scan e m k s h =
    elim (scan_row-countable voter row vote cid at scan) [
      | inl kept ↦ k s (sym kept ∙ h)
      | inr (owner, new) ↦ record {
        row = row;
        choice = vote;
        cid = cid;
        at = at;
        found = m;
        owner = owner;
        countable = e;
        stands = cc;
      }
    ]

AllCome-scan_rows :
    (ctx : VoteEligibility) (all : List Row) (voter : String) (rows : List Row) (scan : Scan)
    → ((x : Row) → Memᴰ x rows → Memᴰ x all)
    → AllCome ctx all voter scan
    → AllCome ctx all voter (scan_rows ctx rows scan)
unfolding scan_rows
AllCome-scan_rows ctx all voter [] scan into k = k
AllCome-scan_rows ctx all voter (r ∷ rows) scan into k =
    AllCome-scan_rows ctx all voter rows _ (λ x m. into x (Memᴰ.tail m))
      (AllCome-scan_row ctx all voter r (check_vote_record r.rec ctx) scan refl
        (into r (Memᴰ.head refl)) k)

inserted_later :
    (x r s : Row) (ss : List Row)
    → (Memᴰ x (insert_row r ss) → Memᴰ x (r ∷ ss))
    → Memᴰ x (s ∷ insert_row r ss)
    → Memᴰ x (r ∷ s ∷ ss)
inserted_later x r s ss rec (Memᴰ.head e) = Memᴰ.tail (Memᴰ.head e)
inserted_later x r s ss rec (Memᴰ.tail m) = elim (rec m) [
  | Memᴰ.head e ↦ Memᴰ.head e
  | Memᴰ.tail n ↦ Memᴰ.tail (Memᴰ.tail n)
]

insert_row-mem_from : (x r : Row) (rows : List Row) → Memᴰ x (insert_row r rows) → Memᴰ x (r ∷ rows)
unfolding insert_row
insert_row-mem_from x r [] m = m
insert_row-mem_from x r (s ∷ ss) m = elim (Bool-cases (row_before s r)) [
  | inl b ↦ inserted_later x r s ss (insert_row-mem_from x r ss) (rw b at m)
  | inr b ↦ rw b at m
]

selected :
    (did rkey : String) (x r : Row) (rows : List Row)
    → votes_on did rkey r ≡ true
    → (Memᴰ x (vote_rows did rkey rows) → Memᴰ x rows × (votes_on did rkey x ≡ true))
    → Memᴰ x (r ∷ vote_rows did rkey rows)
    → Memᴰ x (r ∷ rows) × (votes_on did rkey x ≡ true)
selected did rkey x r rows on rec (Memᴰ.head e) = (Memᴰ.head e, rw e on)
selected did rkey x r rows on rec (Memᴰ.tail m) = let (n, here) = rec m in (Memᴰ.tail n, here)

pub vote_rows-mem_from :
    (did rkey : String) (x : Row) (rows : List Row)
    → Memᴰ x (vote_rows did rkey rows)
    → Memᴰ x rows × (votes_on did rkey x ≡ true)
unfolding vote_rows
vote_rows-mem_from did rkey x [] m = elim m [ ]
vote_rows-mem_from did rkey x (r ∷ rows) m = elim (Bool-cases (votes_on did rkey r)) [
  | inl b ↦
      selected did rkey x r rows b (vote_rows-mem_from did rkey x rows)
        (insert_row-mem_from x r (vote_rows did rkey rows) (rw b at m))
  | inr b ↦ let (n, on) = vote_rows-mem_from did rkey x rows (rw b at m) in (Memᴰ.tail n, on)
]

-- The vote that stands for a voter after the scan of all rows comes from a countable record of the voter
-- that the query selects.
pub standing-ComesFromRecord :
    (rows : List Row) (did rkey : String) (proposal : Json) (proposal_cid voter : String)
    (s : Standing)
    → standing_of voter (scan_of rows did rkey proposal proposal_cid).counted ≡ some s
    → ComesFromRecord
        (vote_context did rkey proposal proposal_cid)
        (vote_rows did rkey rows)
        voter
        s
unfolding scan_of standing_of
standing-ComesFromRecord rows did rkey proposal proposal_cid voter =
    AllCome-scan_rows (vote_context did rkey proposal proposal_cid) (vote_rows did rkey rows) voter
      (vote_rows did rkey rows) (record { counted = []; rejected = [] }) (λ x m. m) (λ s h. cc)
