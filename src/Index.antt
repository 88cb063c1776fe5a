-- ===== src/Index.antt =====
-- The repositories of all accounts as src/repo/repo-engine.ts keeps them: the rows of `records_index`
-- and the operations that read and write them, with the audit log.
pub mod Laws
use openfederation_pds.Base.{
  ℕ, Bool, true, false, ◌&&◌, Option, none, some, List, [], ◌∷◌, ◌++◌, String, ◌<>◌, str_eq,
  if◌then◌else◌,
}
use openfederation_pds.Json.{Json}

pub record Row : Type 0 where
  pub did : String
  pub collection : String
  pub rkey : String
  pub cid : String
  pub rec : Json

pub record Audit : Type 0 where
  pub event : String
  pub community : String
  pub subject : String

pub record World : Type 0 where
  pub rows : List Row
  pub audit : List Audit

-- The code that is not here: the CID of a record, whose signing keys can be read, and the record keys
-- that `TID.nextStr` gives.
pub record Repo : Type 0 where
  pub cid_for : Json → String
  pub has_key : String → Bool
  pub has_repo : String → Bool

-- An action may throw; what it did before that stands.
abbrev pub Act : Type 0 → Type 0
Act A = World → Option A × World

infixl 5 ◌>>=◌ ◌>>◌
abbrev pub ◌>>=◌ : {A B : Type 0} → Act A → (A → Act B) → Act B
◌>>=◌ m f w = let (r, w') = m w in elim r [ none ↦ (none, w') | some a ↦ f a w' ]

abbrev pub ◌>>◌ : {B : Type 0} → Act (Unit {0}) → Act B → Act B
m >> k = m >>= λ _. k

abbrev pub pure : {A : Type 0} → A → Act A
pure a w = (some a, w)

abbrev pub throw : {A : Type 0} → Act A
throw w = (none, w)

unfoldable pub row_is : String → String → String → Row → Bool
row_is did collection rkey r =
    str_eq r.did did && (str_eq r.collection collection && str_eq r.rkey rkey)

unfoldable pub find_row : String → String → String → List Row → Option Row
find_row did collection rkey [] = none
find_row did collection rkey (r ∷ rs) =
    if row_is did collection rkey r then some r else find_row did collection rkey rs

-- INSERT ... ON CONFLICT DO UPDATE
unfoldable pub upsert : Row → List Row → List Row
upsert x [] = x ∷ []
upsert x (r ∷ rs) = if row_is x.did x.collection x.rkey r then x ∷ rs else r ∷ upsert x rs

unfoldable pub delete_row : String → String → String → List Row → List Row
delete_row did collection rkey [] = []
delete_row did collection rkey (r ∷ rs) =
    let rest = delete_row did collection rkey rs in
    if row_is did collection rkey r then rest else r ∷ rest

pub data Op : Type 0 where
  write : String → String → Json → Op
  delete : String → String → Op

-- The rows after one operation of a commit; a commit that deletes a missing record is refused.
unfoldable pub apply_op : Repo → String → Op → List Row → Option (List Row)
unfolding find_row upsert delete_row
apply_op repo did (write collection rkey rec) rows = some (
    upsert
      (record {
        did = did;
        collection = collection;
        rkey = rkey;
        cid = repo.cid_for rec;
        rec = rec;
      })
      rows)
apply_op repo did (delete collection rkey) rows = elim (find_row did collection rkey rows) [
  | none ↦ none
  | some r ↦ some (delete_row did collection rkey rows)
]

unfoldable pub apply_ops : Repo → String → List Op → List Row → Option (List Row)
unfolding apply_op
apply_ops repo did [] rows = some rows
apply_ops repo did (op ∷ ops) rows = elim (apply_op repo did op rows) [
  | none ↦ none
  | some rows' ↦ apply_ops repo did ops rows'
]

-- `engine.applyWrites(await getKeypairForDid(did), ops)`: one signed commit, all of it or nothing.
unfoldable pub apply_writes : Repo → String → List Op → Act (Unit {0})
unfolding apply_ops
apply_writes repo did ops w =
    if repo.has_key did
    then elim (apply_ops repo did ops w.rows) [
      | none ↦ (none, w)
      | some rows ↦ (some tt, record w { rows = rows })
    ]
    else (none, w)

-- `engine.putRecord`
unfoldable pub put_record : Repo → String → String → String → Json → Act (Unit {0})
unfolding apply_writes
put_record repo did collection rkey rec = apply_writes repo did (write collection rkey rec ∷ [])

unfoldable pub audit_log : String → String → String → Act (Unit {0})
audit_log event community subject w = (
  some tt,
  record w {
    audit = w.audit ++ record { event = event; community = community; subject = subject } ∷ [];
  },
)
