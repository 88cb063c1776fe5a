-- ===== src/Lifecycle/Reach.antt =====
-- The sequences of steps that a proposal goes through.
use openfederation_pds.Base.{ℕ, Bool, Option, String}
use openfederation_pds.Json.{Json, Num}
use openfederation_pds.Dates.{Dates}
use openfederation_pds.Rules.{VoteChoice}
use openfederation_pds.Index.{Repo, World}
use openfederation_pds.Timelock.Apply.{apply_locked}
use openfederation_pds.Timelock.Override.{close_locked}
use openfederation_pds.Objecting.{object_locked}
use openfederation_pds.Voting.{vote_locked}
use openfederation_pds.Proposing.Amending.{amend_proposal}
use openfederation_pds.Lifecycle.{IsAtLeast}
use openfederation_pds.Lifecycle.Applied.{apply_locked-Keeps, close_locked-Keeps}
use openfederation_pds.Lifecycle.Objected.{object_locked-Keeps}
use openfederation_pds.Lifecycle.Voted.{vote_locked-Keeps}
use openfederation_pds.Lifecycle.Amended.{amend_proposal-Keeps}

-- One operation on the proposal, whoever asks for it and whatever the modules and the clock answer,
-- whether it succeeds, is refused, or fails.
pub data Step (dates : Dates) (repo : Repo) (did rkey : String) : World → World → Type 0 where
  voted :
      (show : Num → String) (unique : String → String → Option String)
      (check : String → Option Bool) (tids : ℕ → String) (voter : String) (vote : VoteChoice)
      (t : ℕ) (w : World)
      → Step dates repo did rkey w
          (vote_locked dates repo show unique check tids did rkey voter vote t w).1
  objected :
      (check : String → Option Bool) (objector : String) (reason : Option String) (tid : String)
      (t : ℕ) (w : World)
      → Step dates repo did rkey w
          (object_locked dates repo check did rkey objector reason tid t w).1
  applied :
      (now : String) (w : World)
      → Step dates repo did rkey w (apply_locked dates repo did rkey now w).1
  closed :
      (now : String) (w : World) → Step dates repo did rkey w (close_locked repo did rkey now w).1
  amended :
      (amender : String) (reason : Option String) (t : ℕ) (permitted : Bool) (proposed : Json)
      (w : World)
      → Step dates repo did rkey w
          (amend_proposal dates repo did rkey amender reason t permitted proposed w).1

pub data Reach (dates : Dates) (repo : Repo) (did rkey : String) : World → World → Type 0 where
  here : (w : World) → Reach dates repo did rkey w w
  then_step :
      (w w1 w2 : World)
      → Step dates repo did rkey w w1
      → Reach dates repo did rkey w1 w2
      → Reach dates repo did rkey w w2

module _ (dates : Dates) (repo : Repo) (did rkey : String) (n : ℕ) where
  Step-Keeps :
      (w w' : World)
      → Step dates repo did rkey w w'
      → IsAtLeast did rkey n w.rows
      → IsAtLeast did rkey n w'.rows
  Step-Keeps _ _ (voted show unique check tids voter vote t w) s =
      vote_locked-Keeps dates repo show unique check tids did rkey voter vote t n w s
  Step-Keeps _ _ (objected check objector reason tid t w) s =
      object_locked-Keeps dates repo check did rkey objector reason tid t n w s
  Step-Keeps _ _ (applied now w) s = apply_locked-Keeps dates repo did rkey now n w s
  Step-Keeps _ _ (closed now w) s = close_locked-Keeps dates repo did rkey now n w s
  Step-Keeps _ _ (amended amender reason t permitted proposed w) s =
      amend_proposal-Keeps dates repo did rkey amender reason t n permitted proposed w s

-- Take a proposal of a community that is in the store, is at least in a phase (open, pending, in its
-- override round, closed, in this order), and whose change is about another record than the proposal.
-- After any sequence of votes, objections, applications, ends of override rounds and amendments of that
-- proposal, by anyone and at any times, refused and failed ones included, it is still in the store, still
-- about another record, and at least in that phase. So no closed proposal is opened again, and no
-- decision that was contested gets a second window.
pub never_back :
    (dates : Dates) (repo : Repo) (did rkey : String) (n : ℕ) (w w' : World)
    → Reach dates repo did rkey w w'
    → IsAtLeast did rkey n w.rows
    → IsAtLeast did rkey n w'.rows
never_back dates repo did rkey n _ _ (here w) s = s
never_back dates repo did rkey n _ _ (then_step w w1 w2 step rest) s =
    never_back dates repo did rkey n w1 w2 rest (Step-Keeps dates repo did rkey n w w1 step s)
