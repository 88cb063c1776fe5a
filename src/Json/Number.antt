-- ===== src/Json/Number.antt =====
-- JavaScript numbers with exact arithmetic: a finite double is a fraction. Rounding is left out.
use openfederation_pds.Base.{
  ℕ, suc, ◌+◌, ◌-◌, ◌*◌, ◌%◌, Bool, true, false, not, ltb, leb, ◌==◌, if◌then◌else◌,
}

-- `frac negative n d` is n / (d + 1) with its sign; `inf true` is -Infinity.
pub data Num : Type 0 where
  nan : Num
  inf : Bool → Num
  frac : Bool → ℕ → ℕ → Num

abbrev pub whole : ℕ → Num
whole n = frac false n 0

-- `Number.isFinite`
unfoldable pub is_finite : Num → Bool
is_finite nan = false
is_finite (inf s) = false
is_finite (frac s n d) = true

-- `Number.isInteger`
unfoldable pub is_integer : Num → Bool
is_integer nan = false
is_integer (inf s) = false
is_integer (frac s n d) = n % suc d == 0

-- `x < k`
unfoldable pub lt_nat : Num → ℕ → Bool
lt_nat nan k = false
lt_nat (inf s) k = s
lt_nat (frac true n d) k = ltb 0 (n + k)
lt_nat (frac false n d) k = ltb n (k * suc d)

-- `x <= k`
unfoldable pub le_nat : Num → ℕ → Bool
le_nat nan k = false
le_nat (inf s) k = s
le_nat (frac true n d) k = true
le_nat (frac false n d) k = leb n (k * suc d)

-- `k < x`
unfoldable pub nat_lt : ℕ → Num → Bool
nat_lt k nan = false
nat_lt k (inf s) = not s
nat_lt k (frac true n d) = false
nat_lt k (frac false n d) = ltb (k * suc d) n

-- `k <= x`
unfoldable pub nat_le : ℕ → Num → Bool
nat_le k nan = false
nat_le k (inf s) = not s
nat_le k (frac true n d) = n + k == 0
nat_le k (frac false n d) = leb (k * suc d) n

-- `x + k`
unfoldable pub plus_nat : Num → ℕ → Num
plus_nat nan k = nan
plus_nat (inf s) k = inf s
plus_nat (frac true n d) k =
    if leb n (k * suc d) then frac false (k * suc d - n) d else frac true (n - k * suc d) d
plus_nat (frac false n d) k = frac false (n + k * suc d) d

-- `Math.max(k, x)`
unfoldable pub max_nat : ℕ → Num → Num
max_nat k x = if lt_nat x k then whole k else x

-- `Math.min(x, k)`
unfoldable pub min_nat : Num → ℕ → Num
min_nat x k = if nat_lt k x then whole k else x

-- A number as a condition: NaN and the zeros are false.
unfoldable pub num_truthy : Num → Bool
num_truthy nan = false
num_truthy (inf s) = true
num_truthy (frac s n d) = ltb 0 n
