-- ===== src/Proposing/Amending.antt =====
-- Amending a proposal, src/api/net.openfederation.community.amendProposal.ts.
use openfederation_pds.Base.{
  ℕ, Bool, not, ◌||◌, Option, none, some, [], ◌∷◌, ◌++◌, String, str_eq, if◌then◌else◌,
}
use openfederation_pds.Json.{
  Json, str, arr, obj, Fields, object, lookup, put, truthy, is_str, as_array, list_items,
  of_strings,
}
use openfederation_pds.Dates.{Dates}
use openfederation_pds.Rules.{proposal_collection}
use openfederation_pds.Index.{Row, Repo, Act, ◌>>◌, pure, throw, find_row, audit_log}
use openfederation_pds.Records.{optional_text}
use openfederation_pds.Timelock.Merge.{community_settings_record}
use openfederation_pds.Timelock.Apply.{put_proposal_record, settings_or_undefined}
use openfederation_pds.Proposing.{
  ProposalAnswer, missing_fields, not_permitted, proposal_not_found, proposal_closed,
  record_not_object, refused_proposal, written_proposal, expiry,
}

unfoldable pub amendment_json : String → Json → String → Option String → Json
unfolding optional_text
amendment_json amender previous now reason = obj (
    object (
      ("amendedBy", str amender)
      ∷ ("previousRecord", previous)
      ∷ ("amendedAt", str now)
      ∷ optional_text "reason" reason))

-- The fields that an amendment sets: the votes are cleared and the time to live starts again.
unfoldable pub amended_fields : Fields → Json → String → String → Option String → String → Fields
unfolding amendment_json
amended_fields proposal proposed amender now reason expires_at =
    put "amendments"
      (arr (
        list_items (
          as_array (lookup "amendments" proposal)
          ++ amendment_json amender (lookup "proposedRecord" proposal) now reason ∷ [])))
      (put "expiresAt" (str expires_at) (
        put "votesAgainst" (of_strings [])
          (put "votesFor" (of_strings []) (put "proposedRecord" proposed proposal))))

module _ (dates : Dates) (repo : Repo) (did rkey amender : String) (reason : Option String)
    (t : ℕ) where
  unfoldable pub write_amendment : Fields → Json → Option String → Act ProposalAnswer
  unfolding amended_fields
  write_amendment proposal proposed none = throw
  write_amendment proposal proposed (some expires_at) = do
    put_proposal_record repo did rkey
        (amended_fields proposal proposed amender (dates.iso t) reason expires_at)
    audit_log "community.proposal.amend" did rkey
    pure (written_proposal rkey)

  unfoldable pub amend_record : Json → Json → Act ProposalAnswer
  unfolding write_amendment expiry settings_or_undefined
  amend_record proposed (obj proposal) w =
      if is_str (lookup "status" proposal) "open"
      then write_amendment proposal proposed
          (expiry dates t (settings_or_undefined (community_settings_record w.rows did))) w
      else (some (refused_proposal proposal_closed), w)
  amend_record proposed _ w = (none, w)

  unfoldable pub amend_row : Json → Option Row → Act ProposalAnswer
  unfolding amend_record
  amend_row proposed none = pure (refused_proposal proposal_not_found)
  amend_row proposed (some row) = amend_record proposed row.rec

  -- No lock is taken.
  unfoldable pub amend_proposal : Bool → Json → Act ProposalAnswer
  unfolding amend_row
  amend_proposal permitted (obj fs) w =
      if str_eq did "" || str_eq rkey ""
      then (some (refused_proposal missing_fields), w)
      else if not permitted
      then (some (refused_proposal not_permitted), w)
      else amend_row (obj fs) (find_row did proposal_collection rkey w.rows) w
  amend_proposal permitted proposed w =
      if str_eq did "" || str_eq rkey "" || not (truthy proposed)
      then (some (refused_proposal missing_fields), w)
      else (some (refused_proposal record_not_object), w)
