-- ===== src/Resolution/Sides.antt =====
-- The vote of a standing is in the tally: sorting and splitting into sides lose none.
use mathlib.Core.List.{Memᴰ}
use mathlib.Core.Option.{some-injective}
use openfederation_pds.Base.{
  ◌≡◌, refl, sym, ap, Bool, true, false, not, some, List, [], ◌∷◌, String, inl, inr, Bool-cases,
  str_eq, if◌then◌else◌,
}
use openfederation_pds.Json.{Json}
use openfederation_pds.Rules.{VoteChoice, for, against}
use openfederation_pds.Index.{Row}
use openfederation_pds.Resolution.{
  CountedVote, RecordTally, Standing, standing_of, scan_of, standing_before, insert_standing,
  sort_standings, votes_of, is_for, tally_from_vote_records,
}

-- The votes of a tally that make a choice.
abbrev pub side_of : VoteChoice → RecordTally → List CountedVote
side_of for tally = tally.votes_for
side_of against tally = tally.votes_against

standing_of-mem :
    (voter : String) (ss : List Standing) (s : Standing) → standing_of voter ss ≡ some s → Memᴰ s ss
unfolding standing_of
standing_of-mem voter [] s h = cc
standing_of-mem voter (x ∷ ss) s h = elim (Bool-cases (str_eq x.vote.voter voter)) [
  | inl b ↦ Memᴰ.head (some-injective _ _ (sym (rw b at h)))
  | inr b ↦ Memᴰ.tail (standing_of-mem voter ss s (rw b at h))
]

insert_standing-mem :
    (s n : Standing) (ss : List Standing) → Memᴰ s (n ∷ ss) → Memᴰ s (insert_standing n ss)
unfolding insert_standing
insert_standing-mem s n [] m = m
insert_standing-mem s n (x ∷ ss) m = elim (Bool-cases (standing_before n x)) [
  | inl b ↦ rw b m
  | inr b ↦ rw b (elim m [
    | Memᴰ.head e ↦ Memᴰ.tail (insert_standing-mem s n ss (Memᴰ.head e))
    | Memᴰ.tail k ↦ elim k [
      | Memᴰ.head e ↦ Memᴰ.head e
      | Memᴰ.tail l ↦ Memᴰ.tail (insert_standing-mem s n ss (Memᴰ.tail l))
    ]
  ])
]

sort_standings-mem : (s : Standing) (ss : List Standing) → Memᴰ s ss → Memᴰ s (sort_standings ss)
unfolding sort_standings
sort_standings-mem s [] m = m
sort_standings-mem s (x ∷ ss) (Memᴰ.head e) =
    insert_standing-mem s x (sort_standings ss) (Memᴰ.head e)
sort_standings-mem s (x ∷ ss) (Memᴰ.tail m) =
    insert_standing-mem s x (sort_standings ss) (Memᴰ.tail (sort_standings-mem s ss m))

unfoldable on_side : Bool → VoteChoice → Bool
on_side side v = if side then is_for v else not (is_for v)

-- A standing that is kept has its vote on the side that it chose.
votes_of-mem :
    (side : Bool) (s : Standing) (ss : List Standing)
    → on_side side s.vote.vote ≡ true
    → Memᴰ s ss
    → Memᴰ s.vote (votes_of side ss)
unfolding votes_of on_side
votes_of-mem side s [] h m = elim m [ ]
votes_of-mem side s (x ∷ ss) h (Memᴰ.head e) =
    let same : on_side side x.vote.vote ≡ true = rw (sym e) h in
    rw same (Memᴰ.head (ap (λ n. n.vote) e))
votes_of-mem side s (x ∷ ss) h (Memᴰ.tail m) = elim (Bool-cases (on_side side x.vote.vote)) [
  | inl b ↦ rw b (Memᴰ.tail (votes_of-mem side s ss h m))
  | inr b ↦ rw b (votes_of-mem side s ss h m)
]

-- The vote of a standing is in the tally, on the side that it chose.
pub standing-counted :
    (rows : List Row) (did rkey : String) (proposal : Json) (proposal_cid voter : String)
    (s : Standing) (v : VoteChoice)
    → s.vote.vote ≡ v
    → standing_of voter (scan_of rows did rkey proposal proposal_cid).counted ≡ some s
    → Memᴰ s.vote (side_of v (tally_from_vote_records rows did rkey proposal proposal_cid))
unfolding tally_from_vote_records on_side is_for
standing-counted rows did rkey proposal proposal_cid voter s for e h =
    votes_of-mem true s _ (rw (ap is_for e) refl)
      (sort_standings-mem s _ (standing_of-mem voter _ s h))
standing-counted rows did rkey proposal proposal_cid voter s against e h =
    votes_of-mem false s _ (rw (ap is_for e) refl)
      (sort_standings-mem s _ (standing_of-mem voter _ s h))
