-- ===== src/Lifecycle/Names.antt =====
-- The names in the caches of a proposal through the counting of a vote.
use openfederation_pds.Base.{
  ◌≡◌, refl, ap, Bool, true, ◌||◌, Option, none, some, List, [], ◌∷◌, ◌++◌, String, arith,
  if◌then◌else◌, eq_refl, includes, includes-append,
}
use openfederation_pds.Json.{
  Fields, lookup-put, as_array, strings, of_strings, items_list, string_items,
}
use openfederation_pds.Rules.{VoteChoice, for, against}
use openfederation_pds.Index.{Row, World}
use openfederation_pds.Voting.Counting.{
  side_key, names, has_voted, add_name, Counted, count_delegator, count_delegations, count_votes,
  is_delegation, delegator_of,
}

strings-of_strings : (xs : List String) → strings (as_array (of_strings xs)) ≡ xs
unfolding strings as_array of_strings items_list string_items
strings-of_strings [] = refl
strings-of_strings (x ∷ xs) = ap (λ r. x ∷ r) (strings-of_strings xs)

has_voted-add_for :
    (did other : String) (p : Fields)
    → has_voted did (add_name for other p)
      ≡ (includes did (names "votesFor" p ++ other ∷ []) || includes did (names "votesAgainst" p))
unfolding has_voted names add_name side_key
has_voted-add_for did other p = simp (lookup-put, strings-of_strings) refl

has_voted-add_against :
    (did other : String) (p : Fields)
    → has_voted did (add_name against other p)
      ≡ (includes did (names "votesFor" p) || includes did (names "votesAgainst" p ++ other ∷ []))
unfolding has_voted names add_name side_key
has_voted-add_against did other p = simp (lookup-put, strings-of_strings) refl

includes-last : (s : String) (xs : List String) → includes s (xs ++ s ∷ []) ≡ true
unfolding includes
includes-last s xs = ground (arith, includes-append s xs (s ∷ []), eq_refl s)

-- The name that is added is counted.
pub has_voted-add_name :
    (vote : VoteChoice) (did : String) (p : Fields) → has_voted did (add_name vote did p) ≡ true
has_voted-add_name for did p =
    ground (arith, has_voted-add_for did did p, includes-last did (names "votesFor" p))
has_voted-add_name against did p =
    ground (arith, has_voted-add_against did did p, includes-last did (names "votesAgainst" p))

-- A name that is counted is still counted after another is added.
pub has_voted-kept :
    (vote : VoteChoice) (did other : String) (p : Fields)
    → has_voted did p ≡ true
    → has_voted did (add_name vote other p) ≡ true
unfolding has_voted
has_voted-kept for did other p h =
    ground
      (arith, has_voted-add_for did other p, includes-append did (names "votesFor" p) (other ∷ []))
has_voted-kept against did other p h = ground (
  arith,
  has_voted-add_against did other p,
  includes-append did (names "votesAgainst" p) (other ∷ []),
)

module _ (check : String → Option Bool) (evidence : Bool) (did rkey proposal_cid voter : String)
    (vote : VoteChoice) where
  count_delegator-kept :
      (name : String) (row : Row) (o : Option String) (c : Counted) (w : World)
      → has_voted name c.proposal ≡ true
      → has_voted name
          (count_delegator check evidence did rkey proposal_cid voter vote row o c w).0.proposal
        ≡ true
  unfolding count_delegator
  count_delegator-kept name row none c w h = h
  count_delegator-kept name row (some delegator) c w h =
      ground (arith, has_voted-kept vote name delegator c.proposal h)

  count_delegations-names :
      (name : String) (rows : List Row) (c : Counted) (w : World)
      → has_voted name c.proposal ≡ true
      → has_voted name
          (count_delegations check evidence did rkey proposal_cid voter vote rows c w).0.proposal
        ≡ true
  unfolding count_delegations
  count_delegations-names name [] c w h = h
  count_delegations-names name (row ∷ rows) c w h =
      let o =
        if is_delegation check evidence did rkey proposal_cid voter vote row
        then delegator_of row
        else none in
      let mid = count_delegator check evidence did rkey proposal_cid voter vote row o c w in
      count_delegations-names name rows mid.0 mid.1 (count_delegator-kept name row o c w h)

  -- The voter is in the caches of the proposal that a vote writes.
  pub has_voted-count_votes :
      (rows : List Row) (p : Fields) (w : World)
      → has_voted voter
          (count_votes check evidence did rkey proposal_cid voter vote rows p w).0.proposal
        ≡ true
  unfolding count_votes
  has_voted-count_votes rows p w =
      count_delegations-names voter rows _ w (has_voted-add_name vote voter p)

  -- A name in the caches stays in them.
  pub count_votes-names :
      (name : String) (rows : List Row) (p : Fields) (w : World)
      → has_voted name p ≡ true
      → has_voted name
          (count_votes check evidence did rkey proposal_cid voter vote rows p w).0.proposal
        ≡ true
  unfolding count_votes
  count_votes-names name rows p w h =
      count_delegations-names name rows _ w (has_voted-kept vote name voter p h)
