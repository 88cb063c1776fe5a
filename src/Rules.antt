-- ===== src/Rules.antt =====
-- The pure governance rules, src/governance/decision-rules.ts. The proofs are in the modules below.
pub mod Bars
pub mod Evidence
pub mod Windows
use openfederation_pds.Base.{
  ℕ, suc, ◌+◌, ◌*◌, ◌/◌, Bool, true, false, not, ◌&&◌, ◌||◌, Option, none, some, List, [], ◌∷◌,
  ◌++◌, String, ◌<>◌, str_eq, text_lt, ltb, leb, if◌then◌else◌, includes,
}
use openfederation_pds.Json.{
  Num, nan, inf, frac, whole, is_finite, is_integer, lt_nat, le_nat, nat_lt, plus_nat, max_nat,
  min_nat, Json, undefined, null, bool, num, str, arr, obj, get, coalesce, as_str, is_str, as_array,
  strings,
}
use openfederation_pds.Dates.{Dates, shifted}

abbrev pub proposal_collection : String
proposal_collection = "net.openfederation.community.proposal"

abbrev pub vote_collection : String
vote_collection = "net.openfederation.governance.vote"

abbrev pub decision_collection : String
decision_collection = "net.openfederation.governance.decision"

abbrev pub objection_collection : String
objection_collection = "net.openfederation.governance.objection"

abbrev pub settings_collection : String
settings_collection = "net.openfederation.community.settings"

abbrev pub default_quorum : ℕ
default_quorum = 3

abbrev pub evidence_model_vote_records : String
evidence_model_vote_records = "vote-records"

abbrev pub max_cid_chain : ℕ
max_cid_chain = 500

pub data VoteChoice : Type 0 where
  for against : VoteChoice

pub data Outcome : Type 0 where
  approved rejected : Outcome

unfoldable pub proposal_uri : String → String → String
proposal_uri community_did proposal_rkey =
    "at://" <> (community_did <> ("/" <> (proposal_collection <> ("/" <> proposal_rkey))))

unfoldable pub uses_vote_record_evidence : Json → Bool
uses_vote_record_evidence proposal =
    is_str (get "evidenceModel" proposal) evidence_model_vote_records

-- The set is a list, of which only membership is asked.
unfoldable pub known_proposal_cids : Json → String → List String
known_proposal_cids proposal current_cid =
    strings (as_array (get "cidChain" proposal)) ++ current_cid ∷ []

-- `list[list.length - 1]`
unfoldable pub last_item : List Json → Json
last_item [] = undefined
last_item (v ∷ []) = v
last_item (v ∷ w ∷ vs) = last_item (w ∷ vs)

unfoldable pub tally_epoch : Json → Option String
unfolding last_item
tally_epoch proposal = elim (as_str (get "overrideOpenedAt" proposal)) [
  | some opened ↦ some opened
  | none ↦ as_str (
      coalesce (get "amendedAt" (last_item (as_array (get "amendments" proposal))))
        (get "createdAt" proposal))
]

pub record VoteEligibility : Type 0 where
  pub proposal_uri : String
  pub known_cids : List String
  pub epoch : Option String

pub data Reason : Type 0 where
  invalid_vote_value proposal_uri_mismatch unknown_proposal_cid stale_vote_record : Reason
  decision_mismatch objection_predates_decision late_objection : Reason

pub data VoteEligibilityResult : Type 0 where
  countable_vote : VoteChoice → String → String → VoteEligibilityResult
  uncountable_vote : Reason → VoteEligibilityResult

unfoldable pub vote_value : Json → Option VoteChoice
vote_value v =
    if is_str v "for" then some for else if is_str v "against" then some against else none

-- `ctx.epoch && createdAt < ctx.epoch`
unfoldable pub before_epoch : Option String → String → Bool
before_epoch none created_at = false
before_epoch (some epoch) created_at = not (str_eq epoch "") && text_lt created_at epoch

-- `typeof v === 'string' ? v : ''`
unfoldable pub text_or_empty : Json → String
text_or_empty (str s) = s
text_or_empty _ = ""

-- `record?.proposal?.uri` and `record?.proposalCollection` name this proposal.
unfoldable pub cites_proposal : Json → String → Bool
cites_proposal rec uri =
    is_str (get "uri" (get "proposal" rec)) uri
    && is_str (get "proposalCollection" rec) proposal_collection

unfoldable pub check_cid :
    Json → VoteEligibility → VoteChoice → Option String → VoteEligibilityResult
unfolding before_epoch text_or_empty
check_cid rec ctx vote none = uncountable_vote unknown_proposal_cid
check_cid rec ctx vote (some cid) =
    let created_at = text_or_empty (get "createdAt" rec) in
    if not (includes cid ctx.known_cids)
    then uncountable_vote unknown_proposal_cid
    else if before_epoch ctx.epoch created_at
    then uncountable_vote stale_vote_record
    else countable_vote vote cid created_at

unfoldable pub check_vote : Json → VoteEligibility → Option VoteChoice → VoteEligibilityResult
unfolding check_cid cites_proposal
check_vote rec ctx none = uncountable_vote invalid_vote_value
check_vote rec ctx (some vote) =
    if cites_proposal rec ctx.proposal_uri
    then check_cid rec ctx vote (as_str (get "cid" (get "proposal" rec)))
    else uncountable_vote proposal_uri_mismatch

unfoldable pub check_vote_record : Json → VoteEligibility → VoteEligibilityResult
unfolding check_vote vote_value
check_vote_record rec ctx = check_vote rec ctx (vote_value (get "vote" rec))

unfoldable pub vote_order_key : String → String → String
vote_order_key created_at rkey = created_at <> ("|" <> rkey)

unfoldable pub decide_outcome : ℕ → ℕ → Num → Option Outcome
decide_outcome votes_for votes_against quorum =
    if nat_lt (votes_for + votes_against) quorum
    then none
    else some (if ltb votes_against votes_for then approved else rejected)

abbrev pub default_timelock_hours : ℕ
default_timelock_hours = 24

-- `settings?.governanceConfig?.key`
abbrev pub config : String → Json → Json
config key settings = get key (get "governanceConfig" settings)

-- A number that passes the test, or the default.
unfoldable pub number_or : (Num → Bool) → ℕ → Json → Num
number_or valid default (num n) = if valid n then n else whole default
number_or valid default _ = whole default

unfoldable pub timelock_hours : Json → Num
unfolding number_or
timelock_hours settings =
    number_or (λ n. is_finite n && not (lt_nat n 0)) default_timelock_hours
      (config "timelockHours" settings)

abbrev pub default_objection_threshold : ℕ
default_objection_threshold = 1

unfoldable pub objection_threshold : Json → Num
unfolding number_or
objection_threshold settings =
    number_or (λ n. is_integer n && not (lt_nat n 1)) default_objection_threshold
      (config "objectionThreshold" settings)

abbrev pub hour_ms : ℕ
hour_ms = 3600000

abbrev pub day_ms : ℕ
day_ms = 86400000

-- `new Date(new Date(from).getTime() + n * unit).toISOString()`, `none` where it throws.
unfoldable pub instant_after : Dates → String → Num → ℕ → Option String
instant_after dates from n unit = elim (dates.get_time from) [
  | none ↦ none
  | some t ↦ elim (shifted t n unit) [ none ↦ none | some u ↦ some (dates.iso u) ]
]

unfoldable pub apply_at_from : Dates → String → Num → Option String
unfolding instant_after
apply_at_from dates resolved_at hours = instant_after dates resolved_at hours hour_ms

pub record ObjectionEligibility : Type 0 where
  pub proposal_uri : String
  pub decision_uri : String
  pub decision_cid : String
  pub resolved_at : String
  pub apply_at : String

pub data ObjectionEligibilityResult : Type 0 where
  countable_objection : String → ObjectionEligibilityResult
  uncountable_objection : Reason → ObjectionEligibilityResult

unfoldable pub check_objection_record : Json → ObjectionEligibility → ObjectionEligibilityResult
unfolding cites_proposal text_or_empty
check_objection_record rec ctx =
    let created_at = text_or_empty (get "createdAt" rec) in
    if not (cites_proposal rec ctx.proposal_uri)
    then uncountable_objection proposal_uri_mismatch
    else if not (
        is_str (get "uri" (get "decision" rec)) ctx.decision_uri
        && is_str (get "cid" (get "decision" rec)) ctx.decision_cid)
    then uncountable_objection decision_mismatch
    else if str_eq created_at "" || text_lt created_at ctx.resolved_at
    then uncountable_objection objection_predates_decision
    else if not (text_lt created_at ctx.apply_at)
    then uncountable_objection late_objection
    else countable_objection created_at

pub data ObjectionReview : Type 0 where
  override no_review : ObjectionReview

abbrev pub default_objection_override_days : ℕ
default_objection_override_days = 7

unfoldable pub objection_review_mode : Json → ObjectionReview
objection_review_mode settings =
    if is_str (config "objectionReview" settings) "none" then no_review else override

unfoldable pub objection_override_days : Json → Num
unfolding number_or
objection_override_days settings =
    number_or (λ n. is_finite n && not (le_nat n 0)) default_objection_override_days
      (config "objectionOverrideDays" settings)

-- `Math.ceil((eligibleVoters * 2) / 3)`
abbrev pub two_thirds : ℕ → ℕ
two_thirds eligible_voters = (eligible_voters * 2 + 2) / 3

-- The bar where the settings state none.
unfoldable pub default_override_quorum : Num → ℕ → Num
default_override_quorum quorum eligible_voters =
    max_nat 1 (min_nat (max_nat (two_thirds eligible_voters) (plus_nat quorum 1)) eligible_voters)

unfoldable pub configured_quorum : Json → Num → Num
configured_quorum (num n) default = if is_integer n && not (lt_nat n 1) then n else default
configured_quorum _ default = default

unfoldable pub override_quorum_from : Json → Num → ℕ → Num
unfolding configured_quorum default_override_quorum
override_quorum_from settings quorum eligible_voters =
    configured_quorum (config "objectionOverrideQuorum" settings)
      (default_override_quorum quorum eligible_voters)

unfoldable pub override_expires_at : Dates → String → Num → Option String
unfolding instant_after
override_expires_at dates opened_at days = instant_after dates opened_at days day_ms

unfoldable pub decide_override : ℕ → Num → Option Outcome
decide_override votes_for override_quorum =
    if le_nat override_quorum votes_for then some approved else none

abbrev pub governance_write_permission : String
governance_write_permission = "community.governance.write"

abbrev pub owner_permissions : List String
owner_permissions =
    "community.settings.write" ∷ "community.profile.write" ∷ "community.member.read"
    ∷ "community.member.write" ∷ "community.member.delete" ∷ "community.role.read"
    ∷ "community.role.write" ∷ "community.attestation.write" ∷ "community.attestation.delete"
    ∷ "community.application.write" ∷ "community.application.delete" ∷ "community.governance.write"
    ∷ "community.forum.write" ∷ "community.forum.moderate" ∷ "community.calendar.write" ∷ []

abbrev pub moderator_permissions : List String
moderator_permissions =
    "community.profile.write" ∷ "community.member.read" ∷ "community.member.write"
    ∷ "community.member.delete" ∷ "community.role.read" ∷ "community.attestation.write"
    ∷ "community.attestation.delete" ∷ "community.governance.write" ∷ "community.forum.write"
    ∷ "community.forum.moderate" ∷ []

abbrev pub member_permissions : List String
member_permissions = "community.member.read" ∷ "community.role.read" ∷ []

-- `LEGACY_ROLE_PERMISSIONS[role] || []`, for a role that is no property of every object.
unfoldable pub legacy_role_permissions : String → List String
legacy_role_permissions role =
    if str_eq role "owner"
    then owner_permissions
    else if str_eq role "moderator"
    then moderator_permissions
    else if str_eq role "member"
    then member_permissions
    else []

pub record QuorumRule : Type 0 where
  pub model : String
  pub rule : String
  pub threshold : Num

-- `show` is the text of a number in a template.
unfoldable pub quorum_rule : (Num → String) → String → Num → QuorumRule
quorum_rule show model threshold = record {
  model = model;
  rule =
      "resolves once counted votes >= "
      <> (show threshold <> "; approved when votes for exceed votes against");
  threshold = threshold;
}
