-- ===== src/Json/NumberLaws.antt =====
-- The order of numbers through the operations `Math.max`, `Math.min` and `+`.
use openfederation_pds.Base.{ℕ, suc, ◌*◌, ◌≤◌, ◌≡◌, refl, ◌≢◌, true, false, ◌&&◌, ◌||◌, arith, leb}
use openfederation_pds.Json.Number.{
  Num, nan, inf, frac, lt_nat, le_nat, nat_lt, plus_nat, max_nat, min_nat,
}

mul_mono : (k v d : ℕ) → k ≤ v → k * suc d ≤ v * suc d
mul_mono k v d h = grind arith

mul_cancel : (k v d : ℕ) → k * suc d ≤ v * suc d → k ≤ v
mul_cancel k v d h = grind arith

pub le_nat-max_nat : (k v : ℕ) (x : Num) → le_nat (max_nat k x) v ≡ (leb k v && le_nat x v)
unfolding le_nat max_nat lt_nat
le_nat-max_nat k v nan = ground arith
le_nat-max_nat k v (inf s) = ground arith
le_nat-max_nat k v (frac true n d) = ground arith
le_nat-max_nat k v (frac false n d) = ground (arith, mul_mono k v d, mul_cancel k v d)

pub le_nat-min_nat :
    (e v : ℕ) (x : Num) → x ≢ nan → le_nat (min_nat x e) v ≡ (leb e v || le_nat x v)
unfolding le_nat min_nat nat_lt
le_nat-min_nat e v nan h = absurd (h refl)
le_nat-min_nat e v (inf s) h = ground arith
le_nat-min_nat e v (frac true n d) h = ground arith
le_nat-min_nat e v (frac false n d) h = ground (arith, mul_mono e v d, mul_cancel e v d)

pub le_nat-plus_nat : (v : ℕ) (x : Num) → le_nat (plus_nat x 1) v ≡ true → lt_nat x v ≡ true
unfolding le_nat plus_nat lt_nat
le_nat-plus_nat v nan h = ground arith
le_nat-plus_nat v (inf s) h = ground arith
le_nat-plus_nat v (frac true n d) h = ground arith
le_nat-plus_nat v (frac false n d) h = ground arith

pub lt_nat-le : (v w : ℕ) (x : Num) → v ≤ w → lt_nat x v ≡ true → lt_nat x w ≡ true
unfolding lt_nat
lt_nat-le v w nan l h = ground arith
lt_nat-le v w (inf s) l h = ground arith
lt_nat-le v w (frac true n d) l h = ground arith
lt_nat-le v w (frac false n d) l h = ground (arith, mul_mono v w d)

pub max_nat-ne-nan : (k : ℕ) (x : Num) → x ≢ nan → max_nat k x ≢ nan
unfolding max_nat lt_nat
max_nat-ne-nan k x h = ground arith

pub plus_nat-ne-nan : (x : Num) (k : ℕ) → x ≢ nan → plus_nat x k ≢ nan
unfolding plus_nat
plus_nat-ne-nan nan k h = λ e. h e
plus_nat-ne-nan (inf s) k h = λ e. cc
plus_nat-ne-nan (frac s n d) k h = ground arith
