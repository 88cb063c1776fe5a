-- ===== src/Tests/Voting.antt =====
-- Runs of the handlers of votes, objections, delegations and the governance model, and their theorems
-- at concrete inputs.
use openfederation_pds.Base.{
  includes, ℕ, ◌≡◌, ◌≢◌, ◌⊎◌, refl, Bool, true, false, Option, some, none, [], ◌∷◌, String, arith,
}
use openfederation_pds.Json.{
  nat_lt, as_num, string_items, items_list, as_array, strings, Num, undefined, str, obj, object,
  Fields, get, lookup, put, is_str, as_str, truthy, of_strings,
}
use openfederation_pds.Rules.{
  for, against, uses_vote_record_evidence, decide_outcome, quorum_rule, proposal_collection,
  settings_collection, text_or_empty,
}
use openfederation_pds.Index.{
  delete_row, Row, World, find_row, row_is, put_record, apply_writes, apply_ops, apply_op, upsert,
  audit_log,
}
use openfederation_pds.Timelock.Apply.{
  apply_locked, settings_or_undefined, put_proposal_record, proposal_write_op, with_lineage,
}
use openfederation_pds.Timelock.Objections.{ordinary_quorum}
use openfederation_pds.Records.{write_vote_records, write_vote_record, written_or_audited}
use openfederation_pds.Timelock.Merge.{community_settings_record}
use openfederation_pds.Voting.{
  record_refusal, is_past, with_keys, cast_vote, settle_vote, vote_locked, vote_on_row,
  vote_on_record, vote_in_phase, phase_refusal, refused_vote, recorded_vote, proposal_closed,
  proposal_expired,
}
use openfederation_pds.Voting.Counting.{
  side_key, add_name, is_delegation, delegator_of, count_delegator, is_delegation,
  count_delegations, count_votes, names, has_voted, delegation_collection,
}
use openfederation_pds.Voting.Resolving.{
  Recorded, verdict_of, frozen_bar, decide_votes, settle_verdict, keep_open,
}
use openfederation_pds.Objecting.{
  object_locked, object_to_row, object_to_record, object_in_status, object_in_window,
  status_refusal, contest_of, stated, no_window, refused_objection,
}
use openfederation_pds.Lifecycle.{phase, IsAtLeast}
use openfederation_pds.Lifecycle.Reach.{here, then_step, applied, never_back}
use openfederation_pds.Lifecycle.Once.{then_vote, no_vote, vote_once}
use openfederation_pds.Lifecycle.Refused.{refused_vote_leaves, refused_objection_leaves}
use openfederation_pds.Proposing.Model.{set_governance_model}
use openfederation_pds.Proposing.Laws.{model_protected}
use openfederation_pds.Delegating.{
  texts_of, get_delegation, remove_delegation, remove_first, replace_delegation, set_delegation,
  revoke_delegation, delegations_of, is_delegation_of, delegated,
}
use openfederation_pds.Delegating.Laws.{HasAtMost, one_delegation}
use openfederation_pds.Delegating.RoundTrip.{get-set_delegation}
use openfederation_pds.Tests.Clock.{clock}
use openfederation_pds.Tests.Timelock.{repo, proposal_row, pending_proposal, pending_world}

pending-IsAtLeast : IsAtLeast "did:c" "p1" 1 pending_world.rows
unfolding phase find_row row_is lookup is_str get text_or_empty
pending-IsAtLeast = record {
  row = proposal_row pending_proposal;
  proposal = pending_proposal;
  found = refl;
  held = refl;
  reached = omega arith;
  away = refl;
}

abbrev world_after : World
world_after = (apply_locked clock repo "did:c" "p1" "2026-01-03" pending_world).1

never_back_example : IsAtLeast "did:c" "p1" 1 world_after.rows
never_back_example =
    never_back clock repo "did:c" "p1" 1 pending_world world_after
      (then_step pending_world world_after world_after (applied "2026-01-03" pending_world)
        (here world_after))
      pending-IsAtLeast

abbrev pub show : Num → String
show n = "3"

abbrev pub able : String → Option Bool
able did = some true

abbrev pub no_member : String → String → Option String
no_member did member = none

abbrev pub keys : ℕ → String
keys i = "k"

run_closed :
    vote_locked clock repo show no_member able keys "did:c" "p1" "did:v" for 5 pending_world
    ≡ (some (refused_vote proposal_closed), pending_world)
unfolding vote_locked vote_on_row vote_on_record vote_in_phase phase_refusal find_row row_is lookup
    is_str
run_closed = refl

run_no_window :
    object_locked clock repo able "did:c" "p1" "did:v" none "k" 5 pending_world
    ≡ (some (refused_objection no_window), pending_world)
unfolding object_locked object_to_row object_to_record object_in_status object_in_window
    status_refusal contest_of stated find_row row_is lookup is_str get
run_no_window = refl

refused_objection_leaves_example : pending_world ≡ pending_world
refused_objection_leaves_example =
    refused_objection_leaves clock repo able "did:c" "p1" "did:v" none "k" 5 pending_world
      pending_world no_window run_no_window

abbrev pub open_proposal : Fields
open_proposal = object (
    ("status", str "open")
    ∷ ("action", str "delete")
    ∷ ("targetCollection", str "net.openfederation.community.profile")
    ∷ ("targetRkey", str "self")
    ∷ ("votesFor", of_strings [])
    ∷ ("votesAgainst", of_strings [])
    ∷ [])

abbrev pub open_world : World
open_world = record { rows = proposal_row open_proposal ∷ []; audit = [] }

open-IsAtLeast : IsAtLeast "did:c" "p1" 0 open_world.rows
unfolding phase find_row row_is lookup is_str get text_or_empty
open-IsAtLeast = record {
  row = proposal_row open_proposal;
  proposal = open_proposal;
  found = refl;
  held = refl;
  reached = omega arith;
  away = refl;
}

abbrev pub voted_world : World
voted_world =
    (vote_locked clock repo show no_member able keys "did:c" "p1" "did:v" for 5 open_world).1

abbrev pub still_open : Recorded
still_open = record {
  status = str "open";
  is_applied = false;
  apply_at = none;
  is_deferred = false;
}

pub run_voted :
    vote_locked clock repo show no_member able keys "did:c" "p1" "did:v" for 5 open_world
    ≡ (some (recorded_vote still_open), voted_world)
unfolding vote_locked vote_on_row vote_on_record vote_in_phase phase_refusal find_row row_is lookup
    is_str has_voted names includes strings as_array of_strings items_list string_items
    record_refusal uses_vote_record_evidence get is_past cast_vote count_votes count_delegations
    is_delegation write_vote_records write_vote_record with_keys put_record apply_writes apply_ops
    apply_op upsert written_or_audited settle_vote settings_or_undefined community_settings_record
    verdict_of frozen_bar decide_votes decide_outcome ordinary_quorum settle_verdict keep_open
    put_proposal_record audit_log add_name side_key put as_str as_num quorum_rule nat_lt truthy
    proposal_write_op with_lineage count_delegator delegator_of
run_voted = refl

abbrev second_world : World
second_world =
    (vote_locked clock repo show no_member able keys "did:c" "p1" "did:u" against 6 voted_world).1

run_second :
    vote_locked clock repo show no_member able keys "did:c" "p1" "did:u" against 6 voted_world
    ≡ (some (recorded_vote still_open), second_world)
unfolding vote_locked vote_on_row vote_on_record vote_in_phase phase_refusal find_row row_is lookup
    is_str has_voted names includes strings as_array of_strings items_list string_items
    record_refusal uses_vote_record_evidence get is_past cast_vote count_votes count_delegations
    is_delegation write_vote_records write_vote_record with_keys put_record apply_writes apply_ops
    apply_op upsert written_or_audited settle_vote settings_or_undefined community_settings_record
    verdict_of frozen_bar decide_votes decide_outcome ordinary_quorum settle_verdict keep_open
    put_proposal_record audit_log add_name side_key put as_str as_num quorum_rule nat_lt truthy
    proposal_write_op with_lineage count_delegator delegator_of
run_second = refl

-- Another account votes, and then the voter tries the other side.
vote_once_example :
    vote_locked clock repo show no_member able keys "did:c" "p1" "did:v" against 7 second_world
    ≢ (some (recorded_vote still_open), open_world)
vote_once_example =
    vote_once clock repo show show no_member no_member able able keys keys "did:c" "p1" "did:v" for
      against 5 7 open_world voted_world second_world open_world still_open still_open
      open-IsAtLeast run_voted
      (then_vote show no_member able keys "did:u" against 6 voted_world second_world second_world
        still_open run_second (no_vote second_world))

abbrev IsLeft : World → Type 0
IsLeft w =
    (w ≡ w)
    ⊎ ((row : Row) × (p : Fields) × (find_row "did:c" proposal_collection "p1" w.rows ≡ some row)
        × (row.rec ≡ obj p)
        × (phase_refusal clock 5 p ≡ some proposal_expired))

refused_vote_leaves_example : IsLeft pending_world
refused_vote_leaves_example =
    refused_vote_leaves clock repo show no_member able keys "did:c" "p1" "did:v" for 5 pending_world
      pending_world proposal_closed run_closed

abbrev voting_row : Row
voting_row = record {
  did = "did:c";
  collection = settings_collection;
  rkey = "self";
  cid = "cid0";
  rec = obj (object (("governanceModel", str "simple-majority") ∷ []));
}

abbrev voting_world : World
voting_world = record { rows = voting_row ∷ []; audit = [] }

found_settings : community_settings_record voting_world.rows "did:c" ≡ some voting_row.rec
unfolding community_settings_record find_row row_is
found_settings = refl

model_protected_example :
    (set_governance_model {Request = Unit {0}} none tt repo "did:c" true
      (str "benevolent-dictator")
      undefined
      voting_world).1
    ≡ voting_world
unfolding get lookup truthy is_str
model_protected_example =
    model_protected none tt repo "did:c" true voting_row.rec (str "benevolent-dictator") undefined
      voting_world found_settings (refl, refl)

abbrev delegation_row : Row
delegation_row = record {
  did = "did:c";
  collection = delegation_collection;
  rkey = "d1";
  cid = "cid0";
  rec = obj (object (("delegatorDid", str "did:m") ∷ ("delegateDid", str "did:v") ∷ []));
}

abbrev delegating_world : World
delegating_world = record { rows = delegation_row ∷ []; audit = [] }

one_now : HasAtMost "did:c" "did:m" 1 delegating_world.rows
unfolding delegations_of is_delegation_of get lookup is_str
one_now = record { few = omega arith }

abbrev member : String → String → Option String
member did who = some "r"

one_delegation_example :
    HasAtMost "did:c" "did:m" 1
      (set_delegation repo "did:c" "did:m" true member "did:w" "d2" "now" delegating_world).1.rows
    × HasAtMost "did:c" "did:m" 1 (revoke_delegation repo "did:c" "did:m" delegating_world).1.rows
one_delegation_example =
    one_delegation repo "did:c" "did:m" true member "did:w" "d2" "now" delegating_world one_now

abbrev set_world : World
set_world = (set_delegation repo "did:c" "did:m" true member "did:w" "d2" "now" delegating_world).1

run_set :
    set_delegation repo "did:c" "did:m" true member "did:w" "d2" "now" delegating_world
    ≡ (some (delegated "d2"), set_world)
unfolding set_delegation replace_delegation delegations_of is_delegation_of remove_first
    remove_delegation put_record apply_writes apply_ops apply_op find_row row_is delete_row upsert
    audit_log get lookup is_str
run_set = refl

get-set_delegation_example :
    get_delegation "did:c" "did:m" set_world.rows
    ≡ some (record {
      delegated_to = some "did:w";
      delegated_from =
          texts_of "delegatorDid" (delegations_of "delegateDid" "did:c" "did:m" set_world.rows);
    })
get-set_delegation_example =
    get-set_delegation repo "did:c" "did:m" true member "did:w" "d2" "now" "d2" delegating_world
      set_world refl one_now run_set

abbrev revoked_world : World
revoked_world = (revoke_delegation repo "did:c" "did:m" delegating_world).1
