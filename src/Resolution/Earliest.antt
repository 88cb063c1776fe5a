-- ===== src/Resolution/Earliest.antt =====
-- Which of the records of a voter stands after the scan of all rows.
use mathlib.Core.List.Memᴰ
use mathlib.Core.List.{Memᴰ}
use openfederation_pds.Base.{
  ap, ◌≡◌, refl, sym, true, false, Option, none, some, List, [], ◌∷◌, String, text_lt, arith, inl,
  inr, Bool-cases,
}
use openfederation_pds.Json.{Json}
use openfederation_pds.Rules.{
  VoteEligibility, VoteChoice, countable_vote, check_vote_record, vote_order_key,
}
use openfederation_pds.Index.{Row}
use openfederation_pds.Resolution.{
  tally_from_vote_records, counted_vote, Standing, Scan, standing_of, scan_row, scan_rows, scan_of,
  stands_before, votes_on, row_before, insert_row, vote_rows, vote_context,
}
use openfederation_pds.Resolution.Laws.{scan_row-keeps, scan_row-sets}
use openfederation_pds.Resolution.Origin.{standing-ComesFromRecord, vote_rows-mem_from}
use openfederation_pds.Resolution.Sides.{side_of, standing-counted}

insert_row-mem_self : (r : Row) (rows : List Row) → Memᴰ r (insert_row r rows)
unfolding insert_row
insert_row-mem_self r [] = Memᴰ.head refl
insert_row-mem_self r (s ∷ ss) = elim (Bool-cases (row_before s r)) [
  | inl e ↦ rw e (Memᴰ.tail (insert_row-mem_self r ss))
  | inr e ↦ rw e (Memᴰ.head refl)
]

insert_row-mem : (x r : Row) (rows : List Row) → Memᴰ x rows → Memᴰ x (insert_row r rows)
unfolding insert_row
insert_row-mem x r [] m = elim m [ ]
insert_row-mem x r (s ∷ ss) (Memᴰ.head e) = elim (Bool-cases (row_before s r)) [
  | inl b ↦ rw b (Memᴰ.head e)
  | inr b ↦ rw b (Memᴰ.tail (Memᴰ.head e))
]
insert_row-mem x r (s ∷ ss) (Memᴰ.tail m) = elim (Bool-cases (row_before s r)) [
  | inl b ↦ rw b (Memᴰ.tail (insert_row-mem x r ss m))
  | inr b ↦ rw b (Memᴰ.tail (Memᴰ.tail m))
]

vote_rows-mem :
    (did rkey : String) (x : Row) (rows : List Row)
    → Memᴰ x rows
    → votes_on did rkey x ≡ true
    → Memᴰ x (vote_rows did rkey rows)
unfolding vote_rows
vote_rows-mem did rkey x [] m h = elim m [ ]
vote_rows-mem did rkey x (r ∷ rows) (Memᴰ.head e) h =
    let same : votes_on did rkey r ≡ true = rw (sym e) h in
    rw same (Memᴰ.cast e (insert_row-mem_self r (vote_rows did rkey rows)))
vote_rows-mem did rkey x (r ∷ rows) (Memᴰ.tail m) h = elim (Bool-cases (votes_on did rkey r)) [
  | inl b ↦ rw b (insert_row-mem x r (vote_rows did rkey rows) (vote_rows-mem did rkey x rows m h))
  | inr b ↦ rw b (vote_rows-mem did rkey x rows m h)
]

scan_rows-keeps :
    (voter key : String) (ctx : VoteEligibility) (rows : List Row) (scan : Scan)
    → stands_before (standing_of voter scan.counted) key ≡ true
    → stands_before (standing_of voter (scan_rows ctx rows scan).counted) key ≡ true
unfolding scan_rows
scan_rows-keeps voter key ctx [] scan h = h
scan_rows-keeps voter key ctx (r ∷ rows) scan h =
    scan_rows-keeps voter key ctx rows _
      (scan_row-keeps voter key r (check_vote_record r.rec ctx) scan h)

scan_rows-sets :
    (ctx : VoteEligibility) (x : Row) (vote : VoteChoice) (cid at : String) (rows : List Row)
    (scan : Scan)
    → Memᴰ x rows
    → check_vote_record x.rec ctx ≡ countable_vote vote cid at
    → stands_before (standing_of x.did (scan_rows ctx rows scan).counted) (vote_order_key at x.rkey)
      ≡ true
unfolding scan_rows
scan_rows-sets ctx x vote cid at [] scan m h = elim m [ ]
scan_rows-sets ctx x vote cid at (r ∷ rows) scan (Memᴰ.head e) h =
    scan_rows-keeps x.did (vote_order_key at x.rkey) ctx rows _
      (rw (sym e) (rw h (scan_row-sets x vote cid at scan)))
scan_rows-sets ctx x vote cid at (r ∷ rows) scan (Memᴰ.tail m) h =
    scan_rows-sets ctx x vote cid at rows (scan_row r (check_vote_record r.rec ctx) scan) m h

standing-stands :
    (o : Option Standing) (key : String)
    → stands_before o key ≡ true
    → (s : Standing) × (o ≡ some s) × (text_lt key s.key ≡ false)
unfolding stands_before
standing-stands none key h = cc
standing-stands (some s) key h = (s, refl, ground arith)

-- No countable vote record is lost or overruled by a later one. If a row of the store is a countable vote
-- record on the proposal, then its owner has a vote in the tally, on the side that it chooses. That vote is
-- the one of a row of the store which is a countable vote record on the proposal by the same owner, with
-- that record's choice, address, state and key; and the key, the time and then the record key, is not after
-- the given row's.
pub earliest_stands :
    (rows : List Row) (did rkey : String) (proposal : Json) (proposal_cid : String) (row : Row)
    (vote : VoteChoice) (cid at : String)
    → Memᴰ row rows
    → votes_on did rkey row ≡ true
    → check_vote_record row.rec (vote_context did rkey proposal proposal_cid)
      ≡ countable_vote vote cid at
    → (x : Row) × (v : VoteChoice) × (known : String) × (time : String) × Memᴰ x rows
      × (votes_on did rkey x ≡ true)
      × (x.did ≡ row.did)
      × (check_vote_record x.rec (vote_context did rkey proposal proposal_cid)
          ≡ countable_vote v known time)
      × (standing_of row.did (scan_of rows did rkey proposal proposal_cid).counted
          ≡ some (record { vote = counted_vote x v known; key = vote_order_key time x.rkey }))
      × (text_lt (vote_order_key at row.rkey) (vote_order_key time x.rkey) ≡ false)
      × Memᴰ
          (counted_vote x v known)
          (side_of v (tally_from_vote_records rows did rkey proposal proposal_cid))
unfolding scan_of counted_vote
earliest_stands rows did rkey proposal proposal_cid row vote cid at m on countable =
    let (s, stands, early) = standing-stands _ _ (
      scan_rows-sets (vote_context did rkey proposal proposal_cid) row vote cid at
        (vote_rows did rkey rows) (record { counted = []; rejected = [] })
        (vote_rows-mem did rkey row rows m on) countable) in
    let o = standing-ComesFromRecord rows did rkey proposal proposal_cid row.did s stands in
    let (found, selects) = vote_rows-mem_from did rkey o.row rows o.found in
    let counted =
      standing-counted rows did rkey proposal proposal_cid row.did s o.choice
        (ap (λ n. n.vote.vote) o.stands) stands in
    (
      o.row,
      o.choice,
      o.cid,
      o.at,
      found,
      selects,
      o.owner,
      o.countable,
      cc,
      rw o.stands at early,
      rw (ap (λ n. n.vote) o.stands) at counted,
    )
