-- ===== src/Resolution.antt =====
-- What the vote records of a proposal decide, src/governance/proposal-resolution.ts: the tally, the
-- decision that rests on it, and the reuse of a decision. The proofs are in the modules below.
pub mod Laws
pub mod Origin
pub mod Sides
pub mod Earliest
pub mod Included
pub mod Decision
pub mod Prepare
pub mod Cited
use openfederation_pds.Base.{
  ℕ, Bool, true, false, not, ◌&&◌, Option, none, some, List, [], ◌∷◌, ◌++◌, String, ◌<>◌, str_eq,
  text_lt, if◌then◌else◌, length, includes, ◌==◌,
}
use openfederation_pds.Json.{Num, Json, get, as_str, is_str, as_array, strings}
use openfederation_pds.Rules.{
  vote_collection, proposal_uri, known_proposal_cids, tally_epoch, VoteEligibility,
  VoteEligibilityResult, VoteChoice, for, against, Reason, Outcome, approved, rejected,
  countable_vote, uncountable_vote, check_vote_record, vote_order_key, decide_outcome,
}
use openfederation_pds.Index.{Row}

pub record CountedVote : Type 0 where
  pub voter : String
  pub vote : VoteChoice
  pub uri : String
  pub cid : String
  pub proposal_cid : String
  pub cast_by : Option String

-- `none` stands for `no-vote-record`.
pub record UncountedVote : Type 0 where
  pub voter : String
  pub vote : VoteChoice
  pub reason : Option Reason

pub record RecordTally : Type 0 where
  pub votes_for : List CountedVote
  pub votes_against : List CountedVote
  pub uncounted : List UncountedVote

-- The rows that the query selects.
unfoldable pub votes_on : String → String → Row → Bool
votes_on did rkey row =
    str_eq row.collection vote_collection
    && (is_str (get "community" row.rec) did && is_str (get "proposalRkey" row.rec) rkey)

-- `ORDER BY community_did, rkey`
unfoldable pub row_before : Row → Row → Bool
row_before a b = if str_eq a.did b.did then text_lt a.rkey b.rkey else text_lt a.did b.did

unfoldable pub insert_row : Row → List Row → List Row
unfolding row_before
insert_row r [] = r ∷ []
insert_row r (s ∷ ss) = if row_before s r then s ∷ insert_row r ss else r ∷ s ∷ ss

unfoldable pub vote_rows : String → String → List Row → List Row
unfolding votes_on insert_row
vote_rows did rkey [] = []
vote_rows did rkey (row ∷ rows) =
    let rest = vote_rows did rkey rows in
    if votes_on did rkey row then insert_row row rest else rest

-- A vote that counts, with its order key. The map from voters to their vote is a list of these.
pub record Standing : Type 0 where
  pub vote : CountedVote
  pub key : String

unfoldable pub standing_of : String → List Standing → Option Standing
standing_of voter [] = none
standing_of voter (s ∷ ss) = if str_eq s.vote.voter voter then some s else standing_of voter ss

unfoldable pub set_standing : Standing → List Standing → List Standing
set_standing n [] = n ∷ []
set_standing n (s ∷ ss) = if str_eq s.vote.voter n.vote.voter then n ∷ ss else s ∷ set_standing n ss

-- The map from voters to the reason why they have no vote.
pub record Rejection : Type 0 where
  pub voter : String
  pub reason : Reason

unfoldable pub rejection_of : String → List Rejection → Option Reason
rejection_of voter [] = none
rejection_of voter (r ∷ rs) = if str_eq r.voter voter then some r.reason else rejection_of voter rs

unfoldable pub drop_rejection : String → List Rejection → List Rejection
drop_rejection voter [] = []
drop_rejection voter (r ∷ rs) =
    let rest = drop_rejection voter rs in if str_eq r.voter voter then rest else r ∷ rest

pub record Scan : Type 0 where
  pub counted : List Standing
  pub rejected : List Rejection

unfoldable pub counted_vote : Row → VoteChoice → String → CountedVote
counted_vote row vote proposal_cid = record {
  voter = row.did;
  vote = vote;
  uri = "at://" <> (row.did <> ("/" <> (vote_collection <> ("/" <> row.rkey))));
  cid = row.cid;
  proposal_cid = proposal_cid;
  cast_by = as_str (get "castBy" row.rec);
}

-- `previous !== undefined && previous <= key`
unfoldable pub stands_before : Option Standing → String → Bool
stands_before none key = false
stands_before (some s) key = not (text_lt key s.key)

unfoldable pub is_some : {A : Type 0} → Option A → Bool
is_some none = false
is_some (some a) = true

-- The body of the loop for a record that is judged.
unfoldable pub scan_row : Row → VoteEligibilityResult → Scan → Scan
unfolding standing_of set_standing rejection_of drop_rejection counted_vote stands_before is_some
scan_row row (uncountable_vote reason) scan =
    if is_some (standing_of row.did scan.counted)
    then scan
    else if is_some (rejection_of row.did scan.rejected)
    then scan
    else record scan {
      rejected = scan.rejected ++ record { voter = row.did; reason = reason } ∷ [];
    }
scan_row row (countable_vote vote proposal_cid created_at) scan =
    let key = vote_order_key created_at row.rkey in
    if stands_before (standing_of row.did scan.counted) key then scan else record {
      counted =
          set_standing (record { vote = counted_vote row vote proposal_cid; key = key })
            scan.counted;
      rejected = drop_rejection row.did scan.rejected;
    }

unfoldable pub scan_rows : VoteEligibility → List Row → Scan → Scan
unfolding scan_row
scan_rows ctx [] scan = scan
scan_rows ctx (row ∷ rows) scan =
    scan_rows ctx rows (scan_row row (check_vote_record row.rec ctx) scan)

-- The cached names that no record supports. The caches hold texts.
unfoldable pub uncounted_votes : Scan → VoteChoice → List String → List UncountedVote
unfolding standing_of is_some rejection_of
uncounted_votes scan vote [] = []
uncounted_votes scan vote (voter ∷ voters) =
    let rest = uncounted_votes scan vote voters in
    if is_some (standing_of voter scan.counted)
    then rest
    else record { voter = voter; vote = vote; reason = rejection_of voter scan.rejected } ∷ rest

-- The order of the votes: by the order key, then by the voter.
unfoldable pub standing_before : Standing → Standing → Bool
standing_before a b =
    if str_eq a.key b.key then text_lt a.vote.voter b.vote.voter else text_lt a.key b.key

unfoldable pub insert_standing : Standing → List Standing → List Standing
unfolding standing_before
insert_standing n [] = n ∷ []
insert_standing n (s ∷ ss) = if standing_before n s then n ∷ s ∷ ss else s ∷ insert_standing n ss

unfoldable pub sort_standings : List Standing → List Standing
unfolding insert_standing
sort_standings [] = []
sort_standings (s ∷ ss) = insert_standing s (sort_standings ss)

unfoldable pub is_for : VoteChoice → Bool
is_for for = true
is_for against = false

-- The votes of one side, in order.
unfoldable pub votes_of : Bool → List Standing → List CountedVote
unfolding is_for
votes_of side [] = []
votes_of side (s ∷ ss) =
    let rest = votes_of side ss in
    if (if side then is_for s.vote.vote else not (is_for s.vote.vote)) then s.vote ∷ rest else rest

unfoldable pub cached_names : String → Json → List String
cached_names key proposal = strings (as_array (get key proposal))

abbrev pub vote_context : String → String → Json → String → VoteEligibility
vote_context did rkey proposal proposal_cid = record {
  proposal_uri = proposal_uri did rkey;
  known_cids = known_proposal_cids proposal proposal_cid;
  epoch = tally_epoch proposal;
}

unfoldable pub scan_of : List Row → String → String → Json → String → Scan
unfolding scan_rows vote_rows
scan_of rows did rkey proposal proposal_cid =
    scan_rows (vote_context did rkey proposal proposal_cid) (vote_rows did rkey rows)
      (record { counted = []; rejected = [] })

unfoldable pub tally_from_vote_records : List Row → String → String → Json → String → RecordTally
unfolding scan_of uncounted_votes sort_standings votes_of cached_names
tally_from_vote_records rows did rkey proposal proposal_cid =
    let scan = scan_of rows did rkey proposal proposal_cid in
    record {
      votes_for = votes_of true (sort_standings scan.counted);
      votes_against = votes_of false (sort_standings scan.counted);
      uncounted =
          uncounted_votes scan for (cached_names "votesFor" proposal)
          ++ uncounted_votes scan against (cached_names "votesAgainst" proposal);
    }

unfoldable pub same_outcome : Option Outcome → Option Outcome → Bool
same_outcome none none = true
same_outcome (some approved) (some approved) = true
same_outcome (some rejected) (some rejected) = true
same_outcome _ _ = false

pub record RecordDecision : Type 0 where
  pub outcome : Option Outcome
  pub deferred : Bool
  pub cache_outcome : Option Outcome

-- The two outcomes are compared; where they differ the proposal stays open.
unfoldable pub agreed_decision : Option Outcome → Option Outcome → RecordDecision
unfolding same_outcome
agreed_decision record_outcome cache_outcome =
    if same_outcome record_outcome cache_outcome
    then record { outcome = record_outcome; deferred = false; cache_outcome = cache_outcome }
    else record { outcome = none; deferred = true; cache_outcome = cache_outcome }

unfoldable pub decide_from_records : RecordTally → Json → Num → RecordDecision
unfolding agreed_decision
decide_from_records tally proposal quorum =
    agreed_decision (decide_outcome (length tally.votes_for) (length tally.votes_against) quorum) (
      decide_outcome (length (as_array (get "votesFor" proposal)))
        (length (as_array (get "votesAgainst" proposal))) quorum)
