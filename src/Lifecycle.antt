-- ===== src/Lifecycle.antt =====
-- The phases of a proposal, and the steps that its locked operations make on the store.
pub mod Applied
pub mod Objected
pub mod Counted
pub mod Resolved
pub mod Voted
pub mod Amended
pub mod Reach
pub mod Names
pub mod Named
pub mod Recorded
pub mod Once
pub mod Refused
pub mod Outside
pub mod Unapplied
pub mod Waiting
use openfederation_pds.Base.{
  inl, inr, Bool-cases, ℕ, ◌≤◌, ◌≡◌, refl, sym, ◌∙◌, ap, Bool, true, false, Option, none, some,
  List, [], ◌∷◌, ◌++◌, String, if◌then◌else◌, arith,
}
use openfederation_pds.Json.{Json, str, obj, Fields, lookup, put, get, is_str, lookup-put}
use openfederation_pds.Rules.{proposal_collection, text_or_empty, evidence_model_vote_records}
use openfederation_pds.Index.{
  Row, Repo, World, Act, ◌>>=◌, ◌>>◌, pure, find_row, Op, apply_writes, apply_ops, audit_log,
}
use openfederation_pds.Index.Laws.{
  apply_writes-rows, LeavesAlone, find_row-apply_ops_of, find_row-apply_ops_written,
  apply_ops-append,
}
use openfederation_pds.Timelock.Objections.{pending_status, override_status}
use openfederation_pds.Timelock.Apply.{with_lineage, proposal_write_op, put_proposal_record}
use openfederation_pds.Timelock.Apply.SingleShot.{IsElsewhere, status-with_lineage}

-- How far a proposal is: open, waiting out its window, in its override round, or closed.
unfoldable pub phase : Json → ℕ
phase status =
    if is_str status "open"
    then 0
    else if is_str status pending_status
    then 1
    else if is_str status override_status
    then 2
    else 3

-- The change of the proposal is about another record than the proposal.
abbrev pub IsAway : String → Fields → Type 0
IsAway rkey p = IsElsewhere rkey (obj p)

-- The proposal is in the store, has come at least to a phase, and is about another record.
pub record IsAtLeast (did rkey : String) (n : ℕ) (rows : List Row) : Type 0 where
  pub row : Row
  pub proposal : Fields
  pub found : find_row did proposal_collection rkey rows ≡ some row
  pub held : row.rec ≡ obj proposal
  pub reached : n ≤ phase (lookup "status" proposal)
  pub away : IsAway rkey proposal

-- An action that leaves the store as it is.
abbrev pub IsQuiet : {A : Type 0} → Act A → Type 0
IsQuiet m = (w : World) → (m w).1.rows ≡ w.rows

pub IsQuiet-then :
    {A B : Type 0} (m : Act A) (f : A → Act B)
    → IsQuiet m
    → ((a : A) → IsQuiet (f a))
    → IsQuiet (m >>= f)
IsQuiet-then {A = A} {B = B} m f hm hf w = after (m w).0 (m w).1 (hm w)
  where
    after :
        (o : Option A) (w' : World)
        → w'.rows ≡ w.rows
        → (((λ (_ : World). (o, w')) >>= f) w).1.rows ≡ w.rows
    after none w' e = e
    after (some a) w' e = hf a w' ∙ e

-- What a chain of two actions did where it has an answer.
pub bind_some :
    {A B : Type 0} (m : Act A) (f : A → Act B) (w w' : World) (b : B)
    → (m >>= f) w ≡ (some b, w')
    → (a : A) × (w1 : World) × (m w ≡ (some a, w1)) × (f a w1 ≡ (some b, w'))
bind_some {A = A} {B = B} m f w w' b h = after (m w) refl h
  where
    after :
        (r : Option A × World)
        → m w ≡ r
        → ((λ (_ : World). r) >>= f) w ≡ (some b, w')
        → (a : A) × (w1 : World) × (m w ≡ (some a, w1)) × (f a w1 ≡ (some b, w'))
    after (none, w1) e k = cc
    after (some a, w1) e k = (a, w1, e, k)

module _ (repo : Repo) (did rkey : String) (n : ℕ) where
  -- An action that, from any store, lets the proposal not go back.
  abbrev pub Keeps : {A : Type 0} → Act A → Type 0
  Keeps m = (w : World) → IsAtLeast did rkey n w.rows → IsAtLeast did rkey n (m w).1.rows

  pub Keeps-then :
      {A B : Type 0} (m : Act A) (f : A → Act B)
      → Keeps m
      → ((a : A) → Keeps (f a))
      → Keeps (m >>= f)
  Keeps-then {A = A} {B = B} m f hm hf w s = after (m w).0 (m w).1 (hm w s)
    where
      after :
          (o : Option A) (w' : World)
          → IsAtLeast did rkey n w'.rows
          → IsAtLeast did rkey n (((λ (_ : World). (o, w')) >>= f) w).1.rows
      after none w' s = s
      after (some a) w' s = hf a w' s

  pub Keeps-audit : (event community subject : String) → Keeps (audit_log event community subject)
  unfolding audit_log
  Keeps-audit event community subject w s = s

  pub Keeps-quiet : {A : Type 0} (m : Act A) → IsQuiet m → Keeps m
  Keeps-quiet m h w s = rw (h w) s

  -- A write, its entry in the audit log, and an answer.
  pub Keeps-finish :
      {A : Type 0} (m : Act (Unit {0})) (event community subject : String) (a : A)
      → Keeps m
      → Keeps (m >>= λ _. audit_log event community subject >>= λ _. pure a)
  unfolding audit_log
  Keeps-finish m event community subject a h =
      Keeps-then m (λ _. audit_log event community subject >>= λ _. pure a) h (λ _ w s. s)

  pub same-IsAtLeast :
      (rows rows' : List Row)
      → find_row did proposal_collection rkey rows' ≡ find_row did proposal_collection rkey rows
      → IsAtLeast did rkey n rows
      → IsAtLeast did rkey n rows'
  same-IsAtLeast rows rows' e s = record {
    row = s.row;
    proposal = s.proposal;
    found = e ∙ s.found;
    held = s.held;
    reached = s.reached;
    away = s.away;
  }

  -- A write of any repository that is not about the proposal.
  pub Keeps-writes :
      (owner : String) (ops : List Op)
      → LeavesAlone proposal_collection rkey ops
      → Keeps (apply_writes repo owner ops)
  Keeps-writes owner ops alone w s = elim (apply_writes-rows repo owner ops w) [
    | inl same ↦ rw same s
    | inr done ↦
        same-IsAtLeast _ _
          (find_row-apply_ops_of repo owner did proposal_collection rkey ops _ _ alone done) s
  ]

  IsAway-with_lineage :
      (rows : List Row) (p : Fields) → IsAway rkey p → IsAway rkey (with_lineage rows did rkey p)
  unfolding with_lineage get
  IsAway-with_lineage rows p h =
      elim (Bool-cases (is_str (lookup "evidenceModel" p) evidence_model_vote_records)) [
        | inl e ↦ rw e (simp lookup-put h)
        | inr e ↦ rw e h
      ]

  -- A commit that writes the proposal in a phase that is no earlier.
  pub commit-IsAtLeast :
      (p : Fields) (before after : List Op) (rows rows0 rows' : List Row)
      → n ≤ phase (lookup "status" p)
      → IsAway rkey p
      → LeavesAlone proposal_collection rkey after
      → apply_ops repo did (before ++ proposal_write_op rows0 did rkey p ∷ after) rows ≡ some rows'
      → IsAtLeast did rkey n rows'
  unfolding proposal_write_op
  commit-IsAtLeast p before after rows rows0 rows' h away alone e =
      let (mid, _, written) = apply_ops-append repo did before _ rows rows' e in
      let (row, found, held) =
        find_row-apply_ops_written repo did proposal_collection rkey
          (obj (with_lineage rows0 did rkey p)) after mid rows' alone written in
      record {
        row = row;
        proposal = with_lineage rows0 did rkey p;
        found = found;
        held = held;
        reached = rw (status-with_lineage rows0 did rkey p) h;
        away = IsAway-with_lineage rows0 p away;
      }

  pub Keeps-commit :
      (p : Fields) (before after : List Op) (rows0 : List Row)
      → n ≤ phase (lookup "status" p)
      → IsAway rkey p
      → LeavesAlone proposal_collection rkey after
      → Keeps (apply_writes repo did (before ++ proposal_write_op rows0 did rkey p ∷ after))
  Keeps-commit p before after rows0 h away alone w s =
      elim (apply_writes-rows repo did (before ++ proposal_write_op rows0 did rkey p ∷ after) w) [
        | inl same ↦ rw same s
        | inr done ↦ commit-IsAtLeast p before after w.rows rows0 _ h away alone done
      ]

  pub Keeps-put :
      (p : Fields)
      → n ≤ phase (lookup "status" p)
      → IsAway rkey p
      → Keeps (put_proposal_record repo did rkey p)
  unfolding put_proposal_record
  Keeps-put p h away w = Keeps-commit p [] [] w.rows h away tt w
