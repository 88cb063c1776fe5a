-- ===== src/Timelock/Merge/Laws.antt =====
-- The merge of a settings proposal, key by key.
use openfederation_pds.Base.{◌≡◌, refl, String, eq_iff, arith, if◌then◌else◌}
use openfederation_pds.Json.{
  undefined, null, Fields, end, field, lookup, has, put, remove, Distinct, lookup-put,
  lookup-remove, is_null,
}
use openfederation_pds.Timelock.Merge.{merge_config}

pub lookup-merge_config :
    (k : String) (a b : Fields)
    → Distinct b
    → lookup k (merge_config a b)
      ≡ (if has k b then (if is_null (lookup k b) then undefined else lookup k b) else lookup k a)
unfolding merge_config lookup has
lookup-merge_config k a end d = refl
lookup-merge_config k a (field j null b) (new, d) =
    ground (arith, lookup-merge_config k (remove j a) b d, lookup-remove k j a, eq_iff j k)
lookup-merge_config k a (field j v b) (new, d) =
    ground (arith, lookup-merge_config k (put j v a) b d, lookup-put k j v a, eq_iff j k)
