-- ===== src/Lifecycle/Once.antt =====
-- A vote that is recorded is the only one of its voter in a count.
use openfederation_pds.Base.{ℕ, ◌≡◌, ◌≢◌, Bool, Option, some, String}
use openfederation_pds.Json.{Num}
use openfederation_pds.Dates.{Dates}
use openfederation_pds.Rules.{VoteChoice}
use openfederation_pds.Index.{Repo, World}
use openfederation_pds.Voting.{recorded_vote, vote_locked}
use openfederation_pds.Voting.Resolving.{Recorded}
use openfederation_pds.Lifecycle.{IsAtLeast}
use openfederation_pds.Lifecycle.Named.{IsNamed}
use openfederation_pds.Lifecycle.Recorded.{
  recorded-names_voter, recorded-names_kept, recorded-IsAtLeast, named_refuses,
}

-- Votes on a proposal, one after the other, each of which is recorded: of any accounts, for any side, at
-- any times, whatever the checks and the store of keys answer.
pub data RecordedVotes (dates : Dates) (repo : Repo) (did rkey : String)
    : World → World → Type 0 where
  no_vote : (w : World) → RecordedVotes dates repo did rkey w w
  then_vote :
      (show : Num → String) (unique : String → String → Option String)
      (check : String → Option Bool) (tids : ℕ → String) (voter : String) (vote : VoteChoice)
      (t : ℕ) (w w1 w2 : World) (r : Recorded)
      → vote_locked dates repo show unique check tids did rkey voter vote t w
        ≡ (some (recorded_vote r), w1)
      → RecordedVotes dates repo did rkey w1 w2
      → RecordedVotes dates repo did rkey w w2

RecordedVotes-names_kept :
    (dates : Dates) (repo : Repo) (did rkey name : String) (w w' : World)
    → RecordedVotes dates repo did rkey w w'
    → IsAtLeast did rkey 0 w.rows
    → IsNamed did rkey name w.rows
    → IsNamed did rkey name w'.rows
RecordedVotes-names_kept dates repo did rkey name _ _ (no_vote w) s n = n
RecordedVotes-names_kept dates repo did rkey name _ _
      (then_vote show unique check tids voter vote t w w1 w2 r h rest) s n =
    RecordedVotes-names_kept dates repo did rkey name w1 w2 rest
      (recorded-IsAtLeast dates repo show unique check tids did rkey voter vote t w w1 r s h)
      (recorded-names_kept dates repo show unique check tids did rkey voter vote t name w w1 r s n
        h)

-- Take a proposal in the store whose change is about another record. Where a vote of an account has been
-- recorded, and after it any number of votes on the proposal were recorded with no other operation in
-- between, a second vote of the same account as the next operation is not recorded, whichever side it
-- takes, at whatever time, and whatever the checks and the store of keys answer by then.
pub vote_once :
    (dates : Dates) (repo : Repo) (show show2 : Num → String)
    (unique unique2 : String → String → Option String) (check check2 : String → Option Bool)
    (tids tids2 : ℕ → String) (did rkey voter : String) (vote vote2 : VoteChoice) (t t2 : ℕ)
    (w w' between w2 : World) (r r2 : Recorded)
    → IsAtLeast did rkey 0 w.rows
    → vote_locked dates repo show unique check tids did rkey voter vote t w
      ≡ (some (recorded_vote r), w')
    → RecordedVotes dates repo did rkey w' between
    → vote_locked dates repo show2 unique2 check2 tids2 did rkey voter vote2 t2 between
      ≢ (some (recorded_vote r2), w2)
vote_once dates repo show show2 unique unique2 check check2 tids tids2 did rkey voter vote vote2 t
      t2 w w' between w2 r r2 s h votes =
    named_refuses dates repo show2 unique2 check2 tids2 did rkey voter vote2 t2 between w2 r2 (
      RecordedVotes-names_kept dates repo did rkey voter w' between votes
        (recorded-IsAtLeast dates repo show unique check tids did rkey voter vote t w w' r s h)
        (recorded-names_voter dates repo show unique check tids did rkey voter vote t w w' r s h))
