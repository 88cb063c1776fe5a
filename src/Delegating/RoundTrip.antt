-- ===== src/Delegating/RoundTrip.antt =====
-- The delegation that is read back is the one that was set.
use openfederation_pds.Base.{
  ◌≤◌, ◌≡◌, refl, sym, ap, ◌∙◌, inl, inr, Bool-cases, Option-cases, Bool, true, false, Option, some,
  List, [], ◌∷◌, String, arith, str_eq, eq_refl, length,
}
use openfederation_pds.Json.{get, is_str}
use openfederation_pds.Index.{
  Row, Repo, World, Act, ◌>>=◌, pure, upsert, delete_row, put_record, audit_log,
}
use openfederation_pds.Lifecycle.{bind_some}
use openfederation_pds.Voting.Counting.{delegation_collection}
use openfederation_pds.Delegating.{
  DelegationAnswer, delegated, is_delegation_of, delegations_of, delegation_json, text_of, texts_of,
  delegate_of, get_delegation, remove_delegation, remove_first, replace_delegation, set_delegation,
}
use openfederation_pds.Delegating.Laws.{
  HasAtMost, mine, new_row, remove_delegation-cases, put-cases, none_left, only-upsert,
}

module _ (repo : Repo) (did member : String) where
  no_more : (rows : List Row) → HasAtMost did member 0 rows → mine repo did member rows ≡ []
  no_more rows h = empty _ h.few
    where
      empty : (rs : List Row) → length rs ≤ 0 → rs ≡ []
      empty [] h = refl
      empty (r ∷ rs) h = ground arith

  removed :
      (row : Row) (rest : List Row) (w w' : World) (u : Unit {0})
      → mine repo did member w.rows ≡ row ∷ rest
      → HasAtMost did member 1 w.rows
      → remove_delegation repo did member row w ≡ (some u, w')
      → mine repo did member w'.rows ≡ []
  removed row rest w w' u e one h = elim (remove_delegation-cases repo did member row w) [
    | inl failed ↦ cc
    | inr done ↦
        let same : delete_row did delegation_collection row.rkey w.rows ≡ w'.rows =
          ap (λ r. r.1.rows) (sym done ∙ h) in
        rw (← same) (no_more _ (none_left repo did member w row rest e one))
  ]

  all_removed :
      (found : List Row) (w w' : World) (u : Unit {0})
      → mine repo did member w.rows ≡ found
      → HasAtMost did member 1 w.rows
      → remove_first repo did member found w ≡ (some u, w')
      → mine repo did member w'.rows ≡ []
  unfolding remove_first
  all_removed [] w w' u e one h = rw (← ap (λ r. r.1.rows) h) e
  all_removed (row ∷ rest) w w' u e one h = removed row rest w w' u e one h

  own :
      (delegate tid now : String)
      → is_delegation_of "delegatorDid" did member (new_row repo did member delegate tid now) ≡ true
  unfolding is_delegation_of delegation_json is_str get
  own delegate tid now = rw (eq_refl did) (rw (eq_refl member) refl)

  written :
      (delegate tid now : String) (w w' : World) (u : Unit {0})
      → mine repo did member w.rows ≡ []
      → put_record repo did delegation_collection tid (delegation_json member delegate now) w
        ≡ (some u, w')
      → mine repo did member w'.rows ≡ new_row repo did member delegate tid now ∷ []
  written delegate tid now w w' u e h = elim (put-cases repo did member delegate tid now w) [
    | inl failed ↦ cc
    | inr done ↦
        let same : upsert (new_row repo did member delegate tid now) w.rows ≡ w'.rows =
          ap (λ r. r.1.rows) (sym done ∙ h) in
        rw (← same) (
          only-upsert "delegatorDid" did member (new_row repo did member delegate tid now) w.rows
            (own delegate tid now) e)
  ]

  replaced :
      (delegate tid now k : String) (w w' : World)
      → HasAtMost did member 1 w.rows
      → replace_delegation repo did member delegate tid now w ≡ (some (delegated k), w')
      → mine repo did member w'.rows ≡ new_row repo did member delegate tid now ∷ []
  unfolding replace_delegation audit_log
  replaced delegate tid now k w w' one h =
      let put_it =
        put_record repo did delegation_collection tid (delegation_json member delegate now) in
      let rest : Act DelegationAnswer =
        audit_log "community.delegation.set" did delegate >>= λ _. pure (delegated tid) in
      let (u, w1, first, second) =
        bind_some (remove_first repo did member (mine repo did member w.rows))
          (λ _. put_it >>= λ _. rest) w w' (delegated k) h in
      let (v, w2, put_ok, third) = bind_some put_it (λ _. rest) w1 w' (delegated k) second in
      let same : w2.rows ≡ w'.rows = ap (λ r. r.1.rows) third in
      rw (← same) (written delegate tid now w1 w2 v (all_removed _ w w1 u refl one first) put_ok)

  set_parts :
      (permitted : Bool) (unique : String → String → Option String) (delegate tid now k : String)
      (w w' : World)
      → set_delegation repo did member permitted unique delegate tid now w
        ≡ (some (delegated k), w')
      → (str_eq did "" ≡ false)
        × (str_eq delegate "" ≡ false)
        × (replace_delegation repo did member delegate tid now w ≡ (some (delegated k), w'))
  unfolding set_delegation
  set_parts permitted unique delegate tid now k w w' h = elim (Bool-cases (str_eq did "")) [
    | inl e ↦ let bad = rw e at h in cc
    | inr e ↦ elim (Bool-cases (str_eq delegate "")) [
      | inl e2 ↦ let bad = rw e2 at (rw e at h) in cc
      | inr e2 ↦ elim (Bool-cases (str_eq delegate member)) [
        | inl e3 ↦ let bad = rw e3 at (rw e2 at (rw e at h)) in cc
        | inr e3 ↦ elim (Bool-cases permitted) [
          | inr e4 ↦ let bad = rw e4 at (rw e3 at (rw e2 at (rw e at h))) in cc
          | inl e4 ↦ elim (Option-cases (unique did delegate)) [
            | inl e5 ↦ let bad = rw e5 at (rw e4 at (rw e3 at (rw e2 at (rw e at h)))) in cc
            | inr (rkey, e5) ↦ (e, e2, rw e5 at (rw e4 at (rw e3 at (rw e2 at (rw e at h)))))
          ]
        ]
      ]
    ]
  ]

-- Where a delegation of a member is set, and the member had made one at most, reading the delegations
-- of the member gives the delegate that was set, and the same delegators of the member as the rows name.
-- The member's name is not empty.
pub get-set_delegation :
    (repo : Repo) (did member : String) (permitted : Bool)
    (unique : String → String → Option String) (delegate tid now k : String) (w w' : World)
    → str_eq member "" ≡ false
    → HasAtMost did member 1 w.rows
    → set_delegation repo did member permitted unique delegate tid now w ≡ (some (delegated k), w')
    → get_delegation did member w'.rows
      ≡ some (record {
        delegated_to = some delegate;
        delegated_from = texts_of "delegatorDid" (delegations_of "delegateDid" did member w'.rows);
      })
unfolding get_delegation delegate_of text_of delegation_json get
get-set_delegation repo did member permitted unique delegate tid now k w w' named one h =
    let (community, given, done) =
      set_parts repo did member permitted unique delegate tid now k w w' h in
    let only = replaced repo did member delegate tid now k w w' one done in
    rw community (rw named (rw only (rw given refl)))
