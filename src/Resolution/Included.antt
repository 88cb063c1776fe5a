-- ===== src/Resolution/Included.antt =====
-- Lists of names as sets: when a list of distinct names that is included in another of the same length
-- has the same names.
use openfederation_pds.Base.{
  suc, ◌≤◌, ◌≡◌, refl, Bool, true, false, not, ◌&&◌, List, [], ◌∷◌, String, arith, length, includes,
  str_eq, eq_iff, if◌then◌else◌,
}
use openfederation_pds.Resolution.Decision.{distinct_names, all_included, same_evidence}

pub includes-distinct_names :
    (c : String) (xs : List String) → includes c (distinct_names xs) ≡ includes c xs
unfolding includes distinct_names
includes-distinct_names c [] = refl
includes-distinct_names c (x ∷ xs) =
    ground (arith, includes-distinct_names c xs, includes-distinct_names x xs, eq_iff x c)

unfoldable is_distinct : List String → Bool
is_distinct [] = true
is_distinct (x ∷ xs) = not (includes x xs) && is_distinct xs

is_distinct-distinct_names : (xs : List String) → is_distinct (distinct_names xs) ≡ true
unfolding is_distinct distinct_names
is_distinct-distinct_names [] = refl
is_distinct-distinct_names (x ∷ xs) = ground (arith, is_distinct-distinct_names xs)

-- A list without the first occurrence of a name.
unfoldable without : String → List String → List String
without c [] = []
without c (x ∷ xs) = let rest = without c xs in if str_eq x c then xs else x ∷ rest

length-without :
    (c : String) (xs : List String) → includes c xs ≡ true → length xs ≡ suc (length (without c xs))
unfolding includes without
length-without c [] h = cc
length-without c (x ∷ xs) h = ground (arith, length-without c xs)

includes-without :
    (c d : String) (xs : List String)
    → str_eq c d ≡ false
    → includes d (without c xs) ≡ includes d xs
unfolding includes without
includes-without c d [] h = refl
includes-without c d (x ∷ xs) h = ground (arith, includes-without c d xs h, eq_iff x c)

all_included-without :
    (c : String) (xs ys : List String)
    → includes c xs ≡ false
    → all_included xs ys ≡ true
    → all_included xs (without c ys) ≡ true
unfolding includes all_included
all_included-without c [] ys out h = refl
all_included-without c (x ∷ xs) ys out h =
    ground (arith, all_included-without c xs ys, includes-without c x ys, eq_iff x c, eq_iff c x)

length-all_included :
    (xs ys : List String)
    → is_distinct xs ≡ true
    → all_included xs ys ≡ true
    → length xs ≤ length ys
unfolding is_distinct all_included
length-all_included [] ys d h = omega arith
length-all_included (x ∷ xs) ys d h = ground (
  arith,
  length-all_included xs (without x ys),
  all_included-without x xs ys,
  length-without x ys,
)

includes-all_included :
    (c : String) (xs ys : List String)
    → all_included xs ys ≡ true
    → includes c xs ≡ true
    → includes c ys ≡ true
unfolding includes all_included
includes-all_included c [] ys h k = cc
includes-all_included c (x ∷ xs) ys h k = ground (arith, includes-all_included c xs ys, eq_iff x c)

-- A list that passes for the same evidence as the distinct names of another has the same names.
pub includes-same_evidence :
    (c : String) (cited names : List String)
    → same_evidence cited (distinct_names names) ≡ true
    → includes c cited ≡ includes c names
unfolding same_evidence is_distinct all_included
includes-same_evidence c cited names h = ground (
  arith,
  includes-distinct_names c names,
  is_distinct-distinct_names names,
  includes-all_included c (distinct_names names) cited,
  length-all_included (c ∷ distinct_names names) cited,
)
