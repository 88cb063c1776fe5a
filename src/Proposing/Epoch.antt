-- ===== src/Proposing/Epoch.antt =====
-- The votes that count on a proposal that was amended.
use openfederation_pds.Base.{
  eq_iff, arith, ◌≡◌, refl, ◌∙◌, inl, inr, Bool-cases, false, Option, none, some, List, [], ◌∷◌,
  ◌++◌, String, str_eq, text_lt,
}
use openfederation_pds.Json.{
  items_list-list_items, Json, arr, obj, Fields, get, lookup, as_str, as_array, is_str, list_items,
  lookup-put, coalesce,
}
use openfederation_pds.Rules.{
  tally_epoch, last_item, VoteChoice, check_vote_record, countable_vote,
  evidence_model_vote_records,
}
use openfederation_pds.Rules.Evidence.{IsCurrent, check_vote_record_iff}
use openfederation_pds.Index.{Row}
use openfederation_pds.Resolution.{vote_context}
use openfederation_pds.Timelock.Apply.{with_lineage}
use openfederation_pds.Proposing.Amending.{amended_fields, amendment_json}

last_item-append : (vs : List Json) (v : Json) → last_item (vs ++ v ∷ []) ≡ v
unfolding last_item
last_item-append [] v = refl
last_item-append (u ∷ []) v = refl
last_item-append (u ∷ x ∷ vs) v = last_item-append (x ∷ vs) v

-- The start of the tally, from the three fields that say it.
epoch_of : Json → Json → Json → Option String
epoch_of opened amendments created = elim (as_str opened) [
  | some at ↦ some at
  | none ↦ as_str (coalesce (get "amendedAt" (last_item (as_array amendments))) created)
]

tally_epoch-of :
    (p : Fields)
    → tally_epoch (obj p)
      ≡ epoch_of (lookup "overrideOpenedAt" p) (lookup "amendments" p) (lookup "createdAt" p)
unfolding tally_epoch epoch_of get
tally_epoch-of p = refl

lookup-with_lineage :
    (key : String) (rows : List Row) (did rkey : String) (p : Fields)
    → str_eq "cidChain" key ≡ false
    → lookup key (with_lineage rows did rkey p) ≡ lookup key p
unfolding with_lineage
lookup-with_lineage key rows did rkey p h =
    elim (Bool-cases (is_str (lookup "evidenceModel" p) evidence_model_vote_records)) [
      | inl e ↦ rw e (rw (lookup-put key "cidChain", h) refl)
      | inr e ↦ rw e refl
    ]

tally_epoch-with_lineage :
    (rows : List Row) (did rkey : String) (p : Fields)
    → tally_epoch (obj (with_lineage rows did rkey p)) ≡ tally_epoch (obj p)
tally_epoch-with_lineage rows did rkey p =
    rw
      (
        tally_epoch-of (with_lineage rows did rkey p),
        tally_epoch-of p,
        lookup-with_lineage "overrideOpenedAt" rows did rkey p refl,
        lookup-with_lineage "amendments" rows did rkey p refl,
        lookup-with_lineage "createdAt" rows did rkey p refl,
      )
      refl

epoch_of_amendment :
    (opened created previous : Json) (vs : List Json) (amender now : String)
    (reason : Option String)
    → as_str opened ≡ none
    → epoch_of opened
        (arr (list_items (vs ++ amendment_json amender previous now reason ∷ [])))
        created
      ≡ some now
unfolding epoch_of as_array as_str coalesce get amendment_json
epoch_of_amendment opened created previous vs amender now reason first =
    rw (first, epoch_of)
      (rw (items_list-list_items (vs ++ amendment_json amender previous now reason ∷ []))
        (rw (last_item-append vs (amendment_json amender previous now reason)) refl))

tally_epoch-amended_fields :
    (p : Fields) (proposed : Json) (amender now : String) (reason : Option String)
    (expires_at : String)
    → as_str (lookup "overrideOpenedAt" p) ≡ none
    → tally_epoch (obj (amended_fields p proposed amender now reason expires_at)) ≡ some now
unfolding amended_fields
tally_epoch-amended_fields p proposed amender now reason expires_at first =
    rw (tally_epoch-of (amended_fields p proposed amender now reason expires_at)) (
      simp lookup-put (
        epoch_of_amendment (lookup "overrideOpenedAt" p) (lookup "createdAt" p)
          (lookup "proposedRecord" p) (as_array (lookup "amendments" p)) amender now reason first))

epoch_current :
    (epoch : Option String) (at now : String)
    → epoch ≡ some now
    → str_eq now "" ≡ false
    → IsCurrent epoch at
    → text_lt at now ≡ false
epoch_current epoch at now e full (inl none_at) = cc
epoch_current epoch at now e full (inr (inl empty)) = ground (arith, eq_iff now "")
epoch_current epoch at now e full (inr (inr (f, same, late))) = ground arith

-- Take a proposal that has had no override round, and the record that an amendment writes of it, with its
-- lineage. Every vote record that counts on the amended proposal, whatever the record and whatever state of
-- the proposal it cites, has a time that is not before the amendment: no vote for the earlier text counts.
pub amended_votes :
    (rows : List Row) (did rkey : String) (p : Fields) (proposed : Json) (amender now : String)
    (reason : Option String) (expires_at proposal_cid : String) (rec : Json) (vote : VoteChoice)
    (cid at : String)
    → as_str (lookup "overrideOpenedAt" p) ≡ none
    → str_eq now "" ≡ false
    → check_vote_record rec (
        vote_context did rkey
          (obj
            (with_lineage rows did rkey (amended_fields p proposed amender now reason expires_at)))
          proposal_cid)
      ≡ countable_vote vote cid at
    → text_lt at now ≡ false
amended_votes rows did rkey p proposed amender now reason expires_at proposal_cid rec vote cid at
      first full h =
    let q = amended_fields p proposed amender now reason expires_at in
    let cited =
      (check_vote_record_iff rec
          (vote_context did rkey (obj (with_lineage rows did rkey q)) proposal_cid) vote cid at).0
        h in
    let epoch =
      tally_epoch-with_lineage rows did rkey q
      ∙ tally_epoch-amended_fields p proposed amender now reason expires_at first in
    epoch_current _ at now epoch full cited.current
