-- ===== src/Rules/Bars.antt =====
-- The bars that a tally has to clear: `decideOutcome`, `overrideQuorumFrom` and `decideOverride`.
use openfederation_pds.Base.{
  ℕ, suc, ◌+◌, ◌*◌, ◌≤◌, ◌<◌, ◌≡◌, refl, ◌↔◌, ◌≢◌, ◌&&◌, not, true, false, some, none, arith,
}
use openfederation_pds.Json.{
  Num, nan, inf, frac, whole, lt_nat, le_nat, nat_lt, plus_nat, max_nat, min_nat, is_integer,
  le_nat-max_nat, le_nat-min_nat, le_nat-plus_nat, lt_nat-le, max_nat-ne-nan, plus_nat-ne-nan, Json,
  undefined, num,
}
use openfederation_pds.Rules.{
  Outcome, approved, rejected, decide_outcome, two_thirds, default_override_quorum,
  configured_quorum, override_quorum_from, decide_override, config,
}

-- Where the quorum is a whole number, a tally resolves exactly when the votes reach it: to `approved`
-- when the votes for exceed the votes against, and else to `rejected`.
pub decide_outcome_iff :
    (f a q : ℕ)
    → ((decide_outcome f a (whole q) ≡ none) ↔ (f + a < q))
      × ((decide_outcome f a (whole q) ≡ some approved) ↔ ((q ≤ f + a) × (a < f)))
      × ((decide_outcome f a (whole q) ≡ some rejected) ↔ ((q ≤ f + a) × (f ≤ a)))
unfolding decide_outcome nat_lt
decide_outcome_iff f a q = ground arith

nat_lt-suc : (k : ℕ) (q : Num) → nat_lt k q ≡ false → nat_lt (suc k) q ≡ false
unfolding nat_lt
nat_lt-suc k nan h = refl
nat_lt-suc k (inf s) h = h
nat_lt-suc k (frac true n d) h = refl
nat_lt-suc k (frac false n d) h = grind arith

-- One more vote on the side of an outcome: for, and against.
abbrev pub more_for : Outcome → ℕ → ℕ
more_for approved f = suc f
more_for rejected f = f

abbrev pub more_against : Outcome → ℕ → ℕ
more_against approved a = a
more_against rejected a = suc a

-- Whatever the quorum, one more vote on the side of an outcome keeps it.
pub decide_outcome_stable :
    (f a : ℕ) (q : Num) (o : Outcome)
    → decide_outcome f a q ≡ some o
    → decide_outcome (more_for o f) (more_against o a) q ≡ some o
unfolding decide_outcome
decide_outcome_stable f a q approved h =
    let e : suc f + a ≡ suc (f + a) = omega arith in rw e (ground (arith, nat_lt-suc (f + a) q))
decide_outcome_stable f a q rejected h =
    let e : f + suc a ≡ suc (f + a) = omega arith in rw e (ground (arith, nat_lt-suc (f + a) q))

module _ (q : Num) (e : ℕ) where
  default-reachable : 1 ≤ e → q ≢ nan → le_nat (default_override_quorum q e) e ≡ true
  unfolding default_override_quorum
  default-reachable h n = ground (
    arith,
    le_nat-max_nat 1 e (min_nat (max_nat (two_thirds e) (plus_nat q 1)) e),
    le_nat-min_nat e e (max_nat (two_thirds e) (plus_nat q 1))
        (max_nat-ne-nan (two_thirds e) (plus_nat q 1) (plus_nat-ne-nan q 1 n)),
  )

  default-stronger :
      (v : ℕ)
      → q ≢ nan
      → lt_nat q e ≡ true
      → le_nat (default_override_quorum q e) v ≡ true
      → (lt_nat q v ≡ true) × (1 ≤ v) × (e * 2 ≤ v * 3)
  unfolding default_override_quorum
  default-stronger v n h k = ground (
    arith,
    le_nat-max_nat 1 v (min_nat (max_nat (two_thirds e) (plus_nat q 1)) e),
    le_nat-min_nat e v (max_nat (two_thirds e) (plus_nat q 1))
        (max_nat-ne-nan (two_thirds e) (plus_nat q 1) (plus_nat-ne-nan q 1 n)),
    le_nat-max_nat (two_thirds e) v (plus_nat q 1),
    le_nat-plus_nat v q,
    lt_nat-le e v q,
  )

carried-le : (bar : Num) (v : ℕ) → decide_override v bar ≡ some approved → le_nat bar v ≡ true
unfolding decide_override
carried-le bar v h = ground arith

default-positive : (q : Num) (e : ℕ) → le_nat (default_override_quorum q e) 0 ≡ false
unfolding default_override_quorum
default-positive q e =
    ground (arith, le_nat-max_nat 1 0 (min_nat (max_nat (two_thirds e) (plus_nat q 1)) e))

integer_positive : (n : Num) → (is_integer n && not (lt_nat n 1)) ≡ true → le_nat n 0 ≡ false
unfolding is_integer lt_nat le_nat
integer_positive nan h = refl
integer_positive (inf s) h = cc
integer_positive (frac true n d) h = ground arith
integer_positive (frac false n d) h = ground arith

configured-positive :
    (c : Json) (bar : Num) → le_nat bar 0 ≡ false → le_nat (configured_quorum c bar) 0 ≡ false
unfolding configured_quorum
configured-positive (num n) bar h = ground (arith, integer_positive n)
configured-positive c bar h = h

-- No key in the settings: the bar of the round is the default.
abbrev pub HasNoBar : Json → Type 0
HasNoBar settings = config "objectionOverrideQuorum" settings ≡ undefined

-- Where the settings state no bar, the whole electorate voting for carries the round, so the bar is
-- never out of reach, provided that someone is eligible and the quorum is a number.
pub override_reachable :
    (settings : Json) (q : Num) (e : ℕ)
    → HasNoBar settings
    → q ≢ nan
    → 1 ≤ e
    → decide_override e (override_quorum_from settings q e) ≡ some approved
unfolding decide_override override_quorum_from
override_reachable settings q e h n l = rw (h, configured_quorum) (rw (default-reachable q e l n))

-- Where the settings state no bar and the quorum is a number below the electorate, a round is carried
-- only by more votes for than the ordinary quorum, and by at least two thirds of the electorate.
pub override_stronger :
    (settings : Json) (q : Num) (e v : ℕ)
    → HasNoBar settings
    → q ≢ nan
    → lt_nat q e ≡ true
    → decide_override v (override_quorum_from settings q e) ≡ some approved
    → (lt_nat q v ≡ true) × (e * 2 ≤ v * 3)
unfolding decide_override override_quorum_from
override_stronger settings q e v h n l c =
    let carried : le_nat (default_override_quorum q e) v ≡ true =
      carried-le (default_override_quorum q e) v (rw (h, configured_quorum) at c) in
    let (more, _, share) = default-stronger q e v n l carried in (more, share)

-- Whatever the settings, the quorum and the electorate, no votes at all never carry a round, and
-- no round is ever decided as rejected by votes.
pub override_never_empty :
    (settings : Json) (q : Num) (e v : ℕ)
    → (decide_override 0 (override_quorum_from settings q e) ≡ none)
      × (decide_override v (override_quorum_from settings q e) ≢ some rejected)
unfolding decide_override override_quorum_from
override_never_empty settings q e v = ground (
  arith,
  configured-positive (config "objectionOverrideQuorum" settings) (default_override_quorum q e)
      (default-positive q e),
)
