-- ===== src/Json/Objects.antt =====
-- Objects: assignment, deletion and spread, with the laws of each.
use openfederation_pds.Base.{
  ◌≡◌, refl, Bool, false, ◌||◌, String, str_eq, if◌then◌else◌, arith, eq_iff,
}
use openfederation_pds.Json.Value.{Json, undefined, Fields, end, field, lookup}

unfoldable pub has : String → Fields → Bool
has k end = false
has k (field j v fs) = str_eq j k || has k fs

-- `o.k = v`, and a later key of a literal over a spread.
unfoldable pub put : String → Json → Fields → Fields
put k v end = field k v end
put k v (field j w fs) = if str_eq j k then field k v fs else field j w (put k v fs)

-- `delete o.k`
unfoldable pub remove : String → Fields → Fields
remove k end = end
remove k (field j w fs) = if str_eq j k then remove k fs else field j w (remove k fs)

-- `{ ...a, ...b }`
unfoldable pub assign : Fields → Fields → Fields
assign a end = a
assign a (field k v b) = assign (put k v a) b

abbrev pub Distinct : Fields → Type 0
Distinct end = Unit
Distinct (field k v fs) = (has k fs ≡ false) × Distinct fs

pub lookup-put :
    (j k : String) (v : Json) (fs : Fields)
    → lookup j (put k v fs) ≡ (if str_eq k j then v else lookup j fs)
unfolding lookup put
lookup-put j k v end = refl
lookup-put j k v (field i w fs) =
    ground (arith, eq_iff k j, eq_iff i k, eq_iff i j, lookup-put j k v fs)

pub lookup-remove :
    (j k : String) (fs : Fields)
    → lookup j (remove k fs) ≡ (if str_eq k j then undefined else lookup j fs)
unfolding lookup remove
lookup-remove j k end = ground arith
lookup-remove j k (field i w fs) =
    ground (arith, eq_iff k j, eq_iff i k, eq_iff i j, lookup-remove j k fs)

lookup_of_not-has : (j : String) (fs : Fields) → has j fs ≡ false → lookup j fs ≡ undefined
unfolding lookup has
lookup_of_not-has j end h = refl
lookup_of_not-has j (field i w fs) h = ground (arith, lookup_of_not-has j fs)

-- A spread has the later object's value of each key that it has.
pub lookup-assign :
    (j : String) (a b : Fields)
    → Distinct b
    → lookup j (assign a b) ≡ (if has j b then lookup j b else lookup j a)
unfolding lookup has assign
lookup-assign j a end d = refl
lookup-assign j a (field k v b) (new, d) =
    ground (arith, lookup-assign j (put k v a) b d, lookup-put j k v a, eq_iff k j)
