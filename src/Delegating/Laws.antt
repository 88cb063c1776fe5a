-- ===== src/Delegating/Laws.antt =====
-- A member has one delegation at most, and it is the one that was set last.
use openfederation_pds.Base.{
  ◌⊎◌, ℕ, suc, ◌≤◌, ◌≡◌, refl, sym, subst, inl, inr, Bool-cases, Option-cases, Bool, true, ◌||◌,
  Option, none, some, List, [], ◌∷◌, String, arith, str_eq, eq_iff, eq_refl, length,
}
use openfederation_pds.Index.{
  Row, Repo, World, Act, ◌>>=◌, pure, row_is, upsert, delete_row, apply_op, apply_ops, apply_writes,
  put_record, audit_log,
}
use openfederation_pds.Voting.Counting.{delegation_collection}
use openfederation_pds.Delegating.{
  DelegationAnswer, delegated, revoked, is_delegation_of, delegations_of, delegation_json,
  remove_delegation, remove_first, replace_delegation, set_delegation, revoke_first,
  revoke_delegation,
}

module _ (key did member : String) where
  abbrev count : List Row → ℕ
  count rows = length (delegations_of key did member rows)

  count-upsert : (x : Row) (rows : List Row) → count (upsert x rows) ≤ suc (count rows)
  unfolding delegations_of upsert
  count-upsert x [] = ground arith
  count-upsert x (r ∷ rows) = ground (arith, count-upsert x rows)

  count-delete_row : (c k : String) (rows : List Row) → count (delete_row did c k rows) ≤ count rows
  unfolding delegations_of delete_row
  count-delete_row c k [] = ground arith
  count-delete_row c k (r ∷ rows) = ground (arith, count-delete_row c k rows)

  own_key :
      (r : Row)
      → is_delegation_of key did member r ≡ true
      → row_is did delegation_collection r.rkey r ≡ true
  unfolding is_delegation_of row_is
  own_key r h =
      ground (arith, eq_iff r.did did, eq_iff r.collection delegation_collection, eq_refl r.rkey)

  -- The first delegation is gone after its removal.
  count-delete_first :
      (rows rest : List Row) (x : Row)
      → delegations_of key did member rows ≡ x ∷ rest
      → suc (count (delete_row did delegation_collection x.rkey rows)) ≤ count rows
  unfolding delegations_of delete_row
  count-delete_first [] rest x h = cc
  count-delete_first (r ∷ rows) rest x h = elim (Bool-cases (is_delegation_of key did member r)) [
    | inl e ↦
        let first : r ≡ x = cc in
        let own : row_is did delegation_collection x.rkey r ≡ true = rw (← first) (own_key r e) in
        rw own (rw e (ground (arith, count-delete_row delegation_collection x.rkey rows)))
    | inr e ↦
        let later : delegations_of key did member rows ≡ x ∷ rest = rw e at h in
        ground (arith, e, count-delete_first rows rest x later)
  ]

  pub only-upsert :
      (x : Row) (rows : List Row)
      → is_delegation_of key did member x ≡ true
      → delegations_of key did member rows ≡ []
      → delegations_of key did member (upsert x rows) ≡ x ∷ []
  unfolding delegations_of upsert
  only-upsert x [] h e = rw h refl
  only-upsert x (r ∷ rows) h e = elim (Bool-cases (is_delegation_of key did member r)) [
    | inl own ↦ let bad = rw own at e in cc
    | inr other ↦
        let rest : delegations_of key did member rows ≡ [] = rw other at e in
        elim (Bool-cases (row_is x.did x.collection x.rkey r)) [
          | inl same ↦ rw same (rw h (rw rest refl))
          | inr apart ↦ rw apart (rw other (only-upsert x rows h rest))
        ]
  ]

-- A chain of two actions, by what the first one is known to do.
chain_by :
    {A B : Type 0} (P : World → Type 0) (m : Act A) (f : A → Act B) (w : World)
    (r : Option A × World)
    → m w ≡ r
    → P (((λ (_ : World). r) >>= f) w).1
    → P ((m >>= f) w).1
chain_by P m f w r e h = subst (λ s. P (((λ (_ : World). s) >>= f) w).1) (sym e) h

-- The member has made so many delegations at most.
pub record HasAtMost (did member : String) (n : ℕ) (rows : List Row) : Type 0 where
  pub few : length (delegations_of "delegatorDid" did member rows) ≤ n

module _ (repo : Repo) (did member : String) where
  -- The delegations that the member has made.
  abbrev pub mine : List Row → List Row
  mine rows = delegations_of "delegatorDid" did member rows

  pub remove_delegation-cases :
      (row : Row) (w : World)
      → (remove_delegation repo did member row w ≡ (none, w))
        ⊎ (remove_delegation repo did member row w
            ≡ (some tt, record w { rows = delete_row did delegation_collection row.rkey w.rows }))
  unfolding remove_delegation apply_writes apply_ops apply_op
  remove_delegation-cases row w = ground arith

  abbrev pub new_row : String → String → String → Row
  new_row delegate tid now = record {
    did = did;
    collection = delegation_collection;
    rkey = tid;
    cid = repo.cid_for (delegation_json member delegate now);
    rec = delegation_json member delegate now;
  }

  pub put-cases :
      (delegate tid now : String) (w : World)
      → (put_record repo did delegation_collection tid (delegation_json member delegate now) w
          ≡ (none, w))
        ⊎ (put_record repo did delegation_collection tid (delegation_json member delegate now) w
            ≡ (some tt, record w { rows = upsert (new_row delegate tid now) w.rows }))
  unfolding put_record apply_writes apply_ops apply_op
  put-cases delegate tid now w = ground arith

  none_after :
      (w : World) (row : Row) (rest : List Row)
      → length (mine w.rows) ≤ 1
      → mine w.rows ≡ row ∷ rest
      → mine (delete_row did delegation_collection row.rkey w.rows) ≡ []
  none_after w row rest one first =
      empty _
        (omega (arith, one, count-delete_first "delegatorDid" did member w.rows rest row first))
    where
      empty : (rows : List Row) → length rows ≤ 0 → rows ≡ []
      empty [] h = refl
      empty (r ∷ rows) h = ground arith

  write_new : (delegate tid now : String) → Act DelegationAnswer
  write_new delegate tid now =
      put_record repo did delegation_collection tid (delegation_json member delegate now) >>= λ _.
      audit_log "community.delegation.set" did delegate >>= λ _. pure (delegated tid)

  write_new-one :
      (delegate tid now : String) (w : World)
      → HasAtMost did member 0 w.rows
      → HasAtMost did member 1 (write_new delegate tid now w).1.rows
  unfolding audit_log write_new
  write_new-one delegate tid now w h =
      let put_it =
        put_record repo did delegation_collection tid (delegation_json member delegate now) in
      let rest : Unit {0} → Act DelegationAnswer =
        λ _. audit_log "community.delegation.set" did delegate >>= λ _. pure (delegated tid) in
      elim (put-cases delegate tid now w) [
        | inl e ↦
            chain_by (λ v. HasAtMost did member 1 v.rows) put_it rest w (none, w) e
              (record { few = omega (arith, h.few) })
        | inr e ↦
            chain_by (λ v. HasAtMost did member 1 v.rows) put_it rest w _ e
              (record {
                few = omega (
                  arith,
                  h.few,
                  count-upsert "delegatorDid" did member (new_row delegate tid now) w.rows,
                );
              })
      ]

  pub none_left :
      (w : World) (row : Row) (rest : List Row)
      → mine w.rows ≡ row ∷ rest
      → HasAtMost did member 1 w.rows
      → HasAtMost did member 0 (delete_row did delegation_collection row.rkey w.rows)
  none_left w row rest e one = record {
    few = omega (arith, one.few, count-delete_first "delegatorDid" did member w.rows rest row e);
  }

  replace-one :
      (delegate tid now : String) (w : World) (found : List Row)
      → mine w.rows ≡ found
      → HasAtMost did member 1 w.rows
      → HasAtMost did member 1
          ((remove_first repo did member found >>= λ _. write_new delegate tid now) w).1.rows
  unfolding remove_first
  replace-one delegate tid now w [] e one =
      write_new-one delegate tid now w (record { few = rw e (omega arith) })
  replace-one delegate tid now w (row ∷ rest) e one = elim (remove_delegation-cases row w) [
    | inl failed ↦
        chain_by (λ v. HasAtMost did member 1 v.rows) (remove_delegation repo did member row)
          (λ _. write_new delegate tid now) w (none, w) failed one
    | inr done ↦
        chain_by (λ v. HasAtMost did member 1 v.rows) (remove_delegation repo did member row)
          (λ _. write_new delegate tid now) w _ done
          (write_new-one delegate tid now _ (none_left w row rest e one))
  ]

  -- A change of the member's delegation.
  set-one :
      (permitted : Bool) (unique : String → String → Option String) (delegate tid now : String)
      (w : World)
      → HasAtMost did member 1 w.rows
      → HasAtMost did member 1
          (set_delegation repo did member permitted unique delegate tid now w).1.rows
  unfolding set_delegation replace_delegation put_record write_new
  set-one permitted unique delegate tid now w one =
      elim (Bool-cases (str_eq did "" || str_eq delegate "")) [
        | inl e ↦ rw e one
        | inr e ↦ elim (Bool-cases (str_eq delegate member)) [
          | inl e2 ↦ rw e (rw e2 one)
          | inr e2 ↦ elim (Bool-cases permitted) [
            | inr e3 ↦ rw e (rw e2 (rw e3 one))
            | inl e3 ↦ elim (Option-cases (unique did delegate)) [
              | inl e4 ↦ rw e (rw e2 (rw e3 (rw e4 one)))
              | inr (rkey, e4) ↦
                  rw e (rw e2 (rw e3 (rw e4 (replace-one delegate tid now w _ refl one))))
            ]
          ]
        ]
      ]

  revoke-one :
      (w : World) (found : List Row)
      → mine w.rows ≡ found
      → HasAtMost did member 1 w.rows
      → HasAtMost did member 1 (revoke_first repo did member found w).1.rows
  unfolding revoke_first audit_log
  revoke-one w [] e one = one
  revoke-one w (row ∷ rest) e one =
      let answer : Unit {0} → Act DelegationAnswer =
        λ _. audit_log "community.delegation.revoke" did "" >>= λ _. pure revoked in
      elim (remove_delegation-cases row w) [
        | inl failed ↦
            chain_by (λ v. HasAtMost did member 1 v.rows) (remove_delegation repo did member row)
              answer w (none, w) failed one
        | inr done ↦
            chain_by (λ v. HasAtMost did member 1 v.rows) (remove_delegation repo did member row)
              answer w _ done (record { few = omega (arith, (none_left w row rest e one).few) })
      ]

-- A member of a community who has made one delegation at most has made one at most after setting a
-- delegation and after revoking it, whatever the request is and wherever a commit fails.
pub one_delegation :
    (repo : Repo) (did member : String) (permitted : Bool)
    (unique : String → String → Option String) (delegate tid now : String) (w : World)
    → HasAtMost did member 1 w.rows
    → HasAtMost did member 1
        (set_delegation repo did member permitted unique delegate tid now w).1.rows
      × HasAtMost did member 1 (revoke_delegation repo did member w).1.rows
unfolding revoke_delegation
one_delegation repo did member permitted unique delegate tid now w one = (
  set-one repo did member permitted unique delegate tid now w one,
  elim (Bool-cases (str_eq did "")) [
    | inl e ↦ rw e one
    | inr e ↦ rw e (revoke-one repo did member w _ refl one)
  ],
)
