-- ===== src/Lifecycle/Named.antt =====
-- What is done after the votes are counted puts the counted names into the store.
use openfederation_pds.Base.{
  ◌≡◌, refl, sym, ap, ◌∙◌, inl, inr, Bool-cases, Bool, true, false, Option, none, some, List, [],
  ◌∷◌, ◌++◌, String, arith,
}
use openfederation_pds.Json.{Json, Num, obj, Fields, lookup, is_str, lookup-put}
use openfederation_pds.Dates.{Dates}
use openfederation_pds.Rules.{Outcome, proposal_collection, evidence_model_vote_records}
use openfederation_pds.Index.{
  Row, Repo, World, Act, ◌>>=◌, pure, find_row, Op, apply_writes, apply_ops,
}
use openfederation_pds.Index.Laws.{LeavesAlone, find_row-apply_ops_written, apply_ops-append}
use openfederation_pds.Timelock.Apply.{with_lineage, proposal_write_op, put_proposal_record}
use openfederation_pds.Voting.Counting.{has_voted, names}
use openfederation_pds.Voting.Resolving.{
  Verdict, Recorded, Effect, effect_of, effect_ops, is_effect, resolved_fields, audit_outcome,
  audit_carried, commit_resolution, close_with, keep_open, settle_verdict,
}
use openfederation_pds.Lifecycle.{bind_some, IsAway, IsQuiet, IsQuiet-then}
use openfederation_pds.Lifecycle.Counted.{lookup-resolved_fields}
use openfederation_pds.Lifecycle.Resolved.{
  effect_of-LeavesAlone, IsQuiet-audit_carried, IsQuiet-audit_outcome,
}

-- The proposal is in the store, and the voter is in its caches.
pub record IsNamed (did rkey voter : String) (rows : List Row) : Type 0 where
  pub row : Row
  pub proposal : Fields
  pub found : find_row did proposal_collection rkey rows ≡ some row
  pub held : row.rec ≡ obj proposal
  pub named : has_voted voter proposal ≡ true

has_voted-with_lineage :
    (rows : List Row) (did rkey voter : String) (p : Fields)
    → has_voted voter (with_lineage rows did rkey p) ≡ has_voted voter p
unfolding with_lineage has_voted names
has_voted-with_lineage rows did rkey voter p =
    elim (Bool-cases (is_str (lookup "evidenceModel" p) evidence_model_vote_records)) [
      | inl e ↦ rw e (simp lookup-put refl)
      | inr e ↦ rw e refl
    ]

apply_writes-done :
    (repo : Repo) (owner : String) (ops : List Op) (w w' : World) (u : Unit {0})
    → apply_writes repo owner ops w ≡ (some u, w')
    → apply_ops repo owner ops w.rows ≡ some w'.rows
unfolding apply_writes
apply_writes-done repo owner ops w w' u h = ground arith

module _ (repo : Repo) (did rkey voter : String) where
  -- An action that has named the voter wherever it succeeds.
  abbrev pub Puts : {A : Type 0} → Act A → Type 0
  Puts {A = A} m = (w w' : World) (a : A) → m w ≡ (some a, w') → IsNamed did rkey voter w'.rows

  pub Puts-first :
      {A B : Type 0} (m : Act A) (f : A → Act B)
      → Puts m
      → ((a : A) → IsQuiet (f a))
      → Puts (m >>= f)
  Puts-first m f hm quiet w w' b h =
      let (a, w1, first, second) = bind_some m f w w' b h in
      let same : w'.rows ≡ w1.rows = ap (λ r. r.1.rows) (sym second) ∙ quiet a w1 in
      rw same (hm w w1 a first)

  pub Puts-last :
      {A B : Type 0} (m : Act A) (f : A → Act B) → ((a : A) → Puts (f a)) → Puts (m >>= f)
  Puts-last m f hf w w' b h =
      let (a, w1, first, second) = bind_some m f w w' b h in hf a w1 w' b second

  Puts-commit :
      (q : Fields) (before after : List Op) (rows0 : List Row)
      → has_voted voter q ≡ true
      → LeavesAlone proposal_collection rkey after
      → Puts (apply_writes repo did (before ++ proposal_write_op rows0 did rkey q ∷ after))
  unfolding proposal_write_op
  Puts-commit q before after rows0 named alone w w' u h =
      let (mid, _, written) =
        apply_ops-append repo did before _ w.rows w'.rows (apply_writes-done repo did _ w w' u h) in
      let (row, found, held) =
        find_row-apply_ops_written repo did proposal_collection rkey
          (obj (with_lineage rows0 did rkey q)) after mid w'.rows alone written in
      record {
        row = row;
        proposal = with_lineage rows0 did rkey q;
        found = found;
        held = held;
        named = has_voted-with_lineage rows0 did rkey voter q ∙ named;
      }

-- Whatever is done after the votes are counted, the names that are counted are in the store.
module _ (dates : Dates) (repo : Repo) (show : Num → String) (did rkey voter now : String) where
  abbrev PutsHere : {A : Type 0} → Act A → Type 0
  PutsHere m = Puts repo did rkey voter m

  keep_open-Puts :
      (verdict : Verdict) (q : Fields)
      → has_voted voter q ≡ true
      → PutsHere (keep_open dates repo show did rkey now verdict q)
  unfolding keep_open put_proposal_record
  keep_open-Puts verdict q named w w' a h =
      let answer : Recorded = record {
        status = lookup "status" q;
        is_applied = false;
        apply_at = none;
        is_deferred = verdict.deferred;
      } in
      Puts-first repo did rkey voter (put_proposal_record repo did rkey q) (λ _. pure answer)
        (λ w w' u h. Puts-commit repo did rkey voter q [] [] w.rows named tt w w' u h) (λ _ w. refl)
        w w' a h

  commit_resolution-Puts :
      (in_round : Bool) (outcome : Outcome) (verdict : Verdict) (window : Option String)
      (eff : Effect) (q : Fields)
      → has_voted voter q ≡ true
      → LeavesAlone proposal_collection rkey (effect_ops eff)
      → PutsHere
          (commit_resolution dates repo show did rkey now in_round outcome verdict window eff q)
  unfolding commit_resolution
  commit_resolution-Puts in_round outcome verdict window eff q named alone w w' a h =
      let answer : Recorded = record {
        status = lookup "status" q;
        is_applied = is_effect eff;
        apply_at = window;
        is_deferred = verdict.deferred;
      } in
      let carried = audit_carried dates repo show did rkey now in_round outcome in
      let audited = audit_outcome dates repo show did rkey now outcome window eff in
      Puts-first repo did rkey voter
        (apply_writes repo did
          (verdict.ops ++ proposal_write_op w.rows did rkey q ∷ effect_ops eff))
        (λ _. carried >>= λ _. audited >>= λ _. pure answer)
        (Puts-commit repo did rkey voter q verdict.ops (effect_ops eff) w.rows named alone)
        (λ _.
          IsQuiet-then carried (λ _. audited >>= λ _. pure answer)
            (IsQuiet-audit_carried dates repo show did rkey now 0 in_round outcome)
            (λ _.
              IsQuiet-then audited (λ _. pure answer)
                (IsQuiet-audit_outcome dates repo show did rkey now 0 outcome window eff)
                (λ _ w. refl)))
        w w' a h

  has_voted-resolved_fields :
      (in_round : Bool) (outcome : Outcome) (verdict : Verdict) (window : Option String)
      (eff : Effect) (q : Fields)
      → has_voted voter q ≡ true
      → has_voted voter (resolved_fields in_round outcome verdict.decision window eff now q) ≡ true
  unfolding has_voted names
  has_voted-resolved_fields in_round outcome verdict window eff q named =
      rw
        (lookup-resolved_fields "votesFor" in_round outcome verdict.decision window eff now q
          (refl, refl, refl, refl, refl, refl))
        (rw
          (lookup-resolved_fields "votesAgainst" in_round outcome verdict.decision window eff now q
            (refl, refl, refl, refl, refl, refl))
          named)

  close_with-Puts :
      (in_round : Bool) (p q : Fields) (outcome : Outcome) (verdict : Verdict)
      (window : Option (Option String))
      → has_voted voter q ≡ true
      → IsAway rkey p
      → PutsHere (close_with dates repo show did rkey now in_round p q outcome verdict window)
  unfolding close_with
  close_with-Puts in_round p q outcome verdict none named away w w' a h = ground arith
  close_with-Puts in_round p q outcome verdict (some window) named away w w' a h =
      let eff = effect_of w.rows did (obj p) outcome window in
      commit_resolution-Puts in_round outcome verdict window eff
        (resolved_fields in_round outcome verdict.decision window eff now q)
        (has_voted-resolved_fields in_round outcome verdict window eff q named)
        (effect_of-LeavesAlone w.rows did rkey p outcome window away) w w' a h

  pub settle_verdict-Puts :
      (in_round : Bool) (settings : Json) (p q : Fields) (verdict : Verdict) (o : Option Outcome)
      → has_voted voter q ≡ true
      → IsAway rkey p
      → PutsHere (settle_verdict dates repo show did rkey now in_round settings p q verdict o)
  unfolding settle_verdict
  settle_verdict-Puts in_round settings p q verdict none named away w w' a h =
      keep_open-Puts verdict q named w w' a h
  settle_verdict-Puts in_round settings p q verdict (some outcome) named away w w' a h =
      close_with-Puts in_round p q outcome verdict _ named away w w' a h
