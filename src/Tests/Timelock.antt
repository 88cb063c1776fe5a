-- ===== src/Tests/Timelock.antt =====
-- Runs of src/governance/timelock.ts, and its theorems at concrete inputs.
use openfederation_pds.Base.{
  ap, sym, ◌∙◌, text_lt, ◌≡◌, refl, none, some, Option, [], ◌∷◌, String, true,
}
use openfederation_pds.Json.{
  le_nat, Json, undefined, str, obj, object, get, lookup, truthy, is_str, as_str, Fields, put,
}
use openfederation_pds.Rules.{proposal_collection, text_or_empty, objection_threshold, number_or}
use openfederation_pds.Index.{
  Row, Repo, World, find_row, row_is, apply_ops, apply_op, apply_writes, audit_log, delete_row,
  upsert,
}
use openfederation_pds.Timelock.Merge.{
  community_settings_record, proposal_application_problem, proposed_change_ops, proposes_write,
  delete_ops,
}
use openfederation_pds.Timelock.Objections.{
  pending_status, override_status, countable_objections, objection_context,
}
use openfederation_pds.Timelock.Apply.{
  put_proposal_record, applied, not_pending, window_open, apply_locked, apply_row, apply_record,
  at_window, settle, reaches, settings_or_undefined, apply_change, commit_change, proposal_write_op,
  with_lineage, apply_if_due, preview_row,
}
use openfederation_pds.Timelock.Apply.Effects.{IsApplication, apply_locked-applied}
use openfederation_pds.Timelock.Apply.Laws.{apply_if_due-locked, apply_if_due_idle}
use openfederation_pds.Timelock.Apply.SingleShot.{IsElsewhere, apply_if_due_once}
use openfederation_pds.Timelock.Override.{
  close_expired_override, close_locked, close_row, close_record, close_round, closed_override,
  preview_round, has_expired,
}
use openfederation_pds.Timelock.Override.Laws.{
  IsExpiredRound, close_expired_override_lem, close_expired_override-locked,
}
use openfederation_pds.Tests.Clock.{clock}

abbrev pub repo : Repo
repo = record { cid_for = λ _. "cid"; has_key = λ _. true; has_repo = λ _. true }

abbrev profile_collection : String
profile_collection = "net.openfederation.community.profile"

abbrev profile_row : Row
profile_row = record {
  did = "did:c";
  collection = profile_collection;
  rkey = "self";
  cid = "cid0";
  rec = obj (object []);
}

abbrev pub pending_proposal : Fields
pending_proposal = object (
    ("status", str pending_status)
    ∷ ("applyAt", str "2026-01-02")
    ∷ ("action", str "delete")
    ∷ ("targetCollection", str profile_collection)
    ∷ ("targetRkey", str "self")
    ∷ [])

abbrev pub proposal_row : Fields → Row
proposal_row proposal = record {
  did = "did:c";
  collection = proposal_collection;
  rkey = "p1";
  cid = "cid1";
  rec = obj proposal;
}

-- A community with a profile, and a passed proposal to delete it.
abbrev pub pending_world : World
pending_world = record { rows = proposal_row pending_proposal ∷ profile_row ∷ []; audit = [] }

abbrev applied_world : World
applied_world = record {
  rows =
      record (proposal_row pending_proposal) {
        cid = "cid";
        rec =
            obj
              (put "appliedAt" (str "2026-01-03") (put "status" (str "approved") pending_proposal));
      }
      ∷ [];
  audit = record { event = "community.proposal.apply"; community = "did:c"; subject = "p1" } ∷ [];
}

run_applied :
    apply_locked clock repo "did:c" "p1" "2026-01-03" pending_world ≡ (some applied, applied_world)
unfolding apply_locked apply_row apply_record at_window settle reaches settings_or_undefined
    apply_change commit_change proposal_write_op with_lineage find_row row_is apply_ops apply_op
    apply_writes audit_log delete_row upsert community_settings_record proposal_application_problem
    proposed_change_ops proposes_write delete_ops countable_objections objection_context get lookup
    truthy is_str as_str text_or_empty objection_threshold number_or text_lt le_nat put
run_applied = refl

apply_locked-applied_example :
    IsApplication clock repo "did:c" "p1" "2026-01-03" pending_world applied_world
apply_locked-applied_example =
    apply_locked-applied clock repo "did:c" "p1" "2026-01-03" pending_world applied_world
      run_applied

apply_if_due-locked_example :
    apply_if_due clock repo "did:c" "p1" "2026-01-03" pending_world
    ≡ apply_locked clock repo "did:c" "p1" "2026-01-03" pending_world
apply_if_due-locked_example = apply_if_due-locked clock repo "did:c" "p1" "2026-01-03" pending_world

run_open :
    apply_if_due clock repo "did:c" "p1" "2026-01-01" pending_world
    ≡ (some (window_open "2026-01-02"), pending_world)
unfolding apply_if_due preview_row at_window find_row row_is get lookup is_str as_str text_lt put
run_open = refl

apply_if_due_idle_example : pending_world ≡ pending_world
apply_if_due_idle_example =
    apply_if_due_idle clock repo "did:c" "p1" "2026-01-01" pending_world pending_world
      (window_open "2026-01-02") run_open refl

run_due :
    apply_if_due clock repo "did:c" "p1" "2026-01-03" pending_world ≡ (some applied, applied_world)
run_due = apply_if_due-locked clock repo "did:c" "p1" "2026-01-03" pending_world ∙ run_applied

record_of : Option Row → Json
record_of none = undefined
record_of (some row) = row.rec

found_row :
    find_row "did:c" proposal_collection "p1" pending_world.rows
    ≡ some (proposal_row pending_proposal)
unfolding find_row row_is
found_row = refl

pending-IsElsewhere : IsElsewhere "p1" (obj pending_proposal)
unfolding get lookup text_or_empty
pending-IsElsewhere = refl

found-IsElsewhere :
    (r : Row)
    → find_row "did:c" proposal_collection "p1" pending_world.rows ≡ some r
    → IsElsewhere "p1" r.rec
unfolding record_of
found-IsElsewhere r h =
    let same : obj pending_proposal ≡ r.rec = ap record_of (sym found_row ∙ h) in
    rw (sym same) pending-IsElsewhere

apply_if_due_once_example :
    apply_if_due clock repo "did:c" "p1" "2026-01-04" applied_world
    ≡ (some not_pending, applied_world)
apply_if_due_once_example =
    apply_if_due_once clock repo "did:c" "p1" "2026-01-03" "2026-01-04" pending_world applied_world
      applied found-IsElsewhere run_due refl

abbrev round : Fields
round = object (("status", str override_status) ∷ ("overrideExpiresAt", str "2026-01-09") ∷ [])

abbrev round_world : World
round_world = record { rows = proposal_row round ∷ []; audit = [] }

abbrev expired_world : World
expired_world = record {
  rows =
      record (proposal_row round) {
        cid = "cid";
        rec = obj (
            put "overrideOutcome" (str "expired")
              (put "resolvedAt" (str "2026-01-09") (put "status" (str "rejected") round)));
      }
      ∷ [];
  audit =
      record { event = "community.proposal.overrideExpired"; community = "did:c"; subject = "p1" }
      ∷ [];
}

run_expired :
    close_expired_override repo "did:c" "p1" "2026-01-09" round_world ≡ (some true, expired_world)
unfolding close_expired_override close_locked close_row close_record close_round closed_override
    preview_round has_expired proposal_write_op with_lineage find_row row_is apply_ops apply_op
    apply_writes audit_log upsert get lookup is_str as_str text_lt put put_proposal_record
run_expired = refl

close_expired_override_lem_example :
    IsExpiredRound repo "did:c" "p1" "2026-01-09" round_world expired_world
close_expired_override_lem_example =
    close_expired_override_lem repo "did:c" "p1" "2026-01-09" round_world expired_world true
      run_expired

close_expired_override-locked_example :
    close_expired_override repo "did:c" "p1" "2026-01-09" round_world
    ≡ close_locked repo "did:c" "p1" "2026-01-09" round_world
close_expired_override-locked_example =
    close_expired_override-locked repo "did:c" "p1" "2026-01-09" round_world
