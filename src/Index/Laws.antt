-- ===== src/Index/Laws.antt =====
-- Reading rows back after a write.
use openfederation_pds.Base.{
  ◌⊎◌, ◌++◌, ◌≡◌, refl, ◌∙◌, inl, inr, Option-cases, Bool, true, false, some, List, [], ◌∷◌, String,
  str_eq, eq_iff, eq_refl, arith, if◌then◌else◌, ◌&&◌,
}
use openfederation_pds.Index.{
  World, apply_writes, Json, Repo, Op, write, delete, apply_op, apply_ops, Row, row_is, find_row,
  upsert, delete_row,
}

row_is_self : (r : Row) → row_is r.did r.collection r.rkey r ≡ true
unfolding row_is
row_is_self r = rw (eq_refl r.did, eq_refl r.collection, eq_refl r.rkey) refl

pub find_row-upsert :
    (did collection rkey : String) (x : Row) (rows : List Row)
    → find_row did collection rkey (upsert x rows)
      ≡ (if row_is did collection rkey x then some x else find_row did collection rkey rows)
unfolding find_row upsert row_is
find_row-upsert did collection rkey x [] = refl
find_row-upsert did collection rkey x (r ∷ rows) = ground (
  arith,
  find_row-upsert did collection rkey x rows,
  eq_iff x.did did,
  eq_iff x.collection collection,
  eq_iff x.rkey rkey,
  eq_iff r.did x.did,
  eq_iff r.collection x.collection,
  eq_iff r.rkey x.rkey,
  eq_iff r.did did,
  eq_iff r.collection collection,
  eq_iff r.rkey rkey,
)

pub find_row-delete_row :
    (did collection rkey d c k : String) (rows : List Row)
    → (str_eq d did && (str_eq c collection && str_eq k rkey)) ≡ false
    → find_row did collection rkey (delete_row d c k rows) ≡ find_row did collection rkey rows
unfolding find_row delete_row row_is
find_row-delete_row did collection rkey d c k [] h = refl
find_row-delete_row did collection rkey d c k (r ∷ rows) h = ground (
  arith,
  find_row-delete_row did collection rkey d c k rows h,
  eq_iff d did,
  eq_iff c collection,
  eq_iff k rkey,
  eq_iff r.did d,
  eq_iff r.collection c,
  eq_iff r.rkey k,
  eq_iff r.did did,
  eq_iff r.collection collection,
  eq_iff r.rkey rkey,
)

-- Whether an operation is about this record.
abbrev pub op_is : String → String → Op → Bool
op_is collection rkey (write c k rec) = str_eq c collection && str_eq k rkey
op_is collection rkey (delete c k) = str_eq c collection && str_eq k rkey

abbrev pub LeavesAlone : String → String → List Op → Type 0
LeavesAlone collection rkey [] = Unit
LeavesAlone collection rkey (op ∷ ops) =
    (op_is collection rkey op ≡ false) × LeavesAlone collection rkey ops

find_row-apply_op :
    (repo : Repo) (owner did collection rkey : String) (op : Op) (rows rows' : List Row)
    → op_is collection rkey op ≡ false
    → apply_op repo owner op rows ≡ some rows'
    → find_row did collection rkey rows' ≡ find_row did collection rkey rows
unfolding apply_op row_is
find_row-apply_op repo owner did collection rkey (write c k rec) rows rows' h e = ground (
  arith,
  find_row-upsert did collection rkey
      (record { did = owner; collection = c; rkey = k; cid = repo.cid_for rec; rec = rec }) rows,
)
find_row-apply_op repo owner did collection rkey (delete c k) rows rows' h e =
    ground (arith, find_row-delete_row did collection rkey owner c k rows)

-- A commit of any owner leaves every record that none of its operations is about.
pub find_row-apply_ops_of :
    (repo : Repo) (owner did collection rkey : String) (ops : List Op) (rows rows' : List Row)
    → LeavesAlone collection rkey ops
    → apply_ops repo owner ops rows ≡ some rows'
    → find_row did collection rkey rows' ≡ find_row did collection rkey rows
unfolding apply_ops
find_row-apply_ops_of repo owner did collection rkey [] rows rows' h e = ground arith
find_row-apply_ops_of repo owner did collection rkey (op ∷ ops) rows rows' (h, hs) e =
    elim (Option-cases (apply_op repo owner op rows)) [
      | inl failed ↦ let bad = rw (failed, apply_ops) at e in cc
      | inr (mid, done) ↦
          find_row-apply_ops_of repo owner did collection rkey ops mid rows' hs
            (rw (done, apply_ops) at e)
          ∙ find_row-apply_op repo owner did collection rkey op rows mid h done
    ]

pub find_row-apply_ops :
    (repo : Repo) (did collection rkey : String) (ops : List Op) (rows rows' : List Row)
    → LeavesAlone collection rkey ops
    → apply_ops repo did ops rows ≡ some rows'
    → find_row did collection rkey rows' ≡ find_row did collection rkey rows
find_row-apply_ops repo did = find_row-apply_ops_of repo did did

-- A commit of two lists of operations is one after the other.
pub apply_ops-append :
    (repo : Repo) (did : String) (a b : List Op) (rows rows' : List Row)
    → apply_ops repo did (a ++ b) rows ≡ some rows'
    → (mid : List Row) × (apply_ops repo did a rows ≡ some mid)
      × (apply_ops repo did b mid ≡ some rows')
unfolding apply_ops
apply_ops-append repo did [] b rows rows' e = (rows, refl, e)
apply_ops-append repo did (op ∷ a) b rows rows' e =
    elim (Option-cases (apply_op repo did op rows)) [
      | inl failed ↦ let bad = rw (failed, apply_ops) at e in cc
      | inr (mid, done) ↦
          rw (done, apply_ops) (apply_ops-append repo did a b mid rows' (rw (done, apply_ops) at e))
    ]

found_self :
    (x : Row) (rows : List Row)
    → (if row_is x.did x.collection x.rkey x
        then some x
        else find_row x.did x.collection x.rkey rows)
      ≡ some x
found_self x rows = rw (row_is_self x) refl

-- A record that a commit writes first and touches no more is there after it.
pub find_row-apply_ops_written :
    (repo : Repo) (did collection rkey : String) (rec : Json) (ops : List Op)
    (rows rows' : List Row)
    → LeavesAlone collection rkey ops
    → apply_ops repo did (write collection rkey rec ∷ ops) rows ≡ some rows'
    → (row : Row) × (find_row did collection rkey rows' ≡ some row) × (row.rec ≡ rec)
unfolding apply_ops apply_op
find_row-apply_ops_written repo did collection rkey rec ops rows rows' h e =
    let x : Row = record {
      did = did;
      collection = collection;
      rkey = rkey;
      cid = repo.cid_for rec;
      rec = rec;
    } in
    (
      x,
      find_row-apply_ops repo did collection rkey ops (upsert x rows) rows' h e
          ∙ (find_row-upsert did collection rkey x rows ∙ found_self x rows),
      refl,
    )

-- A commit leaves the rows, or they are those after its operations.
pub apply_writes-rows :
    (repo : Repo) (owner : String) (ops : List Op) (w : World)
    → ((apply_writes repo owner ops w).1.rows ≡ w.rows)
      ⊎ (apply_ops repo owner ops w.rows ≡ some (apply_writes repo owner ops w).1.rows)
unfolding apply_writes
apply_writes-rows repo owner ops w = ground arith
