-- ===== src/Lib.antt =====
-- A verification library for the governance core of the OpenFederation PDS.
--
-- A community is an account whose repository holds its settings, roles, members and proposals. Under a
-- voting model its protected records are meant to change by proposals: members vote, each vote is a record in
-- the voter's own repository, a decided proposal waits out a contest window in which members may object,
-- objections either hold it for good or open an override round with a higher bar, and a proposal that is
-- due is applied by the next call that looks at it, in one commit with the change.
--
-- Parts, and the code they are about:
--   Base           tests on numbers and texts, lists, and the order of texts
--   Json           JSON values, JavaScript numbers as exact fractions, and object updates
--   Dates          `Date` as its milliseconds; the text form is a parameter with its documented order
--   Rules          src/governance/decision-rules.ts, one definition for each function
--                  (checkVoteRecord is `check_vote_record`, overrideQuorumFrom `override_quorum_from`)
--   Settings       src/governance/settings-rules.ts: `check_governance_settings` returns the problem
--                  and the caller's config as it stands after the call
--   Index          src/repo/repo-engine.ts: the rows of `records_index` of all accounts with the audit
--                  log are the state `World`, an action `Act` may throw and keeps what it did before
--   Electorate     src/governance/electorate.ts
--   Timelock       src/governance/timelock.ts: Merge (recordToWrite, proposedChangeOps), Objections
--                  (countableObjections, heldProposalState), Apply (applyIfDue and its sweep) and
--                  Override (closeExpiredOverride and its sweep); Apply also has putProposalRecord and
--                  proposalWriteOp of src/governance/proposal-resolution.ts
--   Enforcement    src/governance/enforcement.ts
--   Resolution     src/governance/proposal-resolution.ts: the tally, how the records and the cache of a
--                  proposal are compared, and the decision record (Decision, Prepare); the
--                  proofs are in Origin and Sides (where a vote of the tally comes from), Earliest,
--                  Included and Cited (what a decision cites)
--   Records        src/governance/vote-records.ts, objection-records.ts and eligibility-evidence.ts; the
--                  table of unique members is an argument
--   Voting         src/api/net.openfederation.community.voteOnProposal.ts: Counting (the names and
--                  delegations), Resolving (the verdict and the one commit that closes the round), and
--                  the handler with its refusals
--   Objecting      src/api/net.openfederation.community.objectToProposal.ts
--   Proposing      createProposal.ts beside them, with amendProposal.ts (Amending) and
--                  setGovernanceModel.ts (Model)
--   Delegating     setDelegation.ts, revokeDelegation.ts and getDelegation.ts beside them
--   Authority      src/governance/request-authority.ts: the registered module is an argument
--   Lifecycle      proofs over all operations on one proposal: what each keeps of its phase (Applied,
--                  Objected, Resolved, Voted, Amended), the sequences of their steps (Reach), what counting a vote
--                  leaves (Counted, Names, Named, Recorded), a second vote (Once), what refusals leave (Refused), and what
--                  a vote leaves of other records (Outside, Unapplied, Waiting)
--   Tests          runs at concrete inputs, and the theorems at inputs that meet their hypotheses
--
-- Conventions. Function and field names are the source's in snake case. `none` stands for an exception
-- where a definition says so, and for `null` or `undefined` elsewhere. A set or a map is a list in the
-- order of insertion. `now` is the text of the clock, as `toISOString` gives it.
--
-- Parameters. `Dates` is the clock's parsing and printing, with the order of its texts as laws: `iso_far`
-- says that a year past 9999 is written with a sign. `Repo` is the CID of a record and which signing keys
-- can be read. A commit is all or nothing; the cache of rows follows it at once. All definitions are
-- structurally recursive, so no fuel is used.
--
-- Not modelled here: rounding of numbers, instants before 1970, keys that every JavaScript object
-- inherits, and values of other types where a query reads a text with `->>`. An advisory lock is an
-- uninterrupted call, and a handler is called at one instant of the clock. The texts in the fields of a
-- request's body and of a proposal are taken to be texts where they are given. The session check and the
-- permission of a caller are answers that a handler is given. Failing queries, blocks and signatures, the
-- uniqueness index of members, the other API handlers, authorization, membership, anchoring and the
-- offline verifiers are left out.
pub mod Base
pub mod Json
pub mod Dates
pub mod Rules
pub mod Settings
pub mod Index
pub mod Electorate
pub mod Timelock
pub mod Enforcement
pub mod Resolution
pub mod Records
pub mod Voting
pub mod Objecting
pub mod Proposing
pub mod Delegating
pub mod Authority
pub mod Lifecycle
pub mod Tests
