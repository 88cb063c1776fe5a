-- ===== src/Settings/Normalized.antt =====
-- The normalised form of `protectedCollections`.
use openfederation_pds.Base.{
  str_eq, if◌then◌else◌, none, Option, ◌≡◌, refl, ◌∙◌, ap, true, false, inl, inr, List, [], ◌∷◌,
  ◌++◌, map, String, starts_with, arith, includes, includes-append, Bool-cases,
}
use mathlib.Core.List.{tail, map-append}
use text.Mathlib.TextPositions.{starts_with-append, eq_refl}
use openfederation_pds.Json.{
  put, lookup, lookup-put, arr, Items, of_strings, Fields, strings, string_items, items_list,
}
use openfederation_pds.Settings.{
  check_protected_list, SettingsProblem, mandatory_protected_collections, add_mandatory,
  check_protected, collection_prefix, qualify, all_strings,
}

abbrev pub AreQualified : List String → Type 0
AreQualified xs = map qualify xs ≡ xs

qualify_idem : (c : String) → qualify (qualify c) ≡ qualify c
unfolding qualify
qualify_idem c = elim (Bool-cases (starts_with c collection_prefix)) [
  | inl h ↦ rw (h, h) refl
  | inr h ↦ rw (h, starts_with-append collection_prefix c) refl
]

map-qualify-AreQualified : (xs : List String) → AreQualified (map qualify xs)
map-qualify-AreQualified [] = refl
map-qualify-AreQualified (x ∷ xs) = λ i. qualify_idem x i ∷ map-qualify-AreQualified xs i

AreQualified-push :
    (xs : List String) (m : String) → AreQualified xs → qualify m ≡ m → AreQualified (xs ++ m ∷ [])
AreQualified-push xs m h k = map-append qualify xs (m ∷ []) ∙ (λ i. h i ++ k i ∷ [])

strings-string_items : (xs : List String) → strings (items_list (string_items xs)) ≡ xs
unfolding strings items_list string_items
strings-string_items [] = refl
strings-string_items (x ∷ xs) = ap (λ ys. x ∷ ys) (strings-string_items xs)

all_strings-string_items : (xs : List String) → all_strings (items_list (string_items xs)) ≡ true
unfolding all_strings items_list string_items
all_strings-string_items [] = refl
all_strings-string_items (x ∷ xs) = all_strings-string_items xs

includes-push :
    (x m : String) (xs : List String) → includes x xs ≡ true → includes x (xs ++ m ∷ []) ≡ true
includes-push x m xs h = rw (includes-append x xs (m ∷ [])) (rw h refl)

includes-push_self : (m : String) (xs : List String) → includes m (xs ++ m ∷ []) ≡ true
unfolding includes
includes-push_self m xs = rw (includes-append m xs (m ∷ [])) (rw (eq_refl m) (ground arith))

abbrev pub AllIn : List String → List String → Type 0
AllIn [] xs = Unit
AllIn (m ∷ ms) xs = (includes m xs ≡ true) × AllIn ms xs

-- The loop that adds the mandatory collections keeps the rest, and every one is there at its end.
head_or : List String → String
head_or [] = ""
head_or (x ∷ xs) = x

head-eq : {x y : String} {xs ys : List String} → x ∷ xs ≡ y ∷ ys → x ≡ y
unfolding head_or
head-eq e = ap head_or e

record IsCompleted (ms old : List String) (r : Option SettingsProblem × List String) : Type 0 where
  accepted : r.0 ≡ none
  qualified : AreQualified r.1
  kept : (x : String) → includes x old ≡ true → includes x r.1 ≡ true
  all : AllIn ms r.1

add_mandatory-IsCompleted :
    (q ms : List String)
    → AreQualified q
    → AreQualified ms
    → IsCompleted ms q (add_mandatory true q ms)
unfolding add_mandatory
add_mandatory-IsCompleted q [] h k = record {
  accepted = refl;
  qualified = h;
  kept = λ x e. e;
  all = tt;
}
add_mandatory-IsCompleted q (m ∷ ms) h k = elim (Bool-cases (includes m q)) [
  | inl present ↦
      let c = add_mandatory-IsCompleted q ms h (ap tail k) in
      rw present (record {
        accepted = c.accepted;
        qualified = c.qualified;
        kept = c.kept;
        all = (c.kept m present, c.all);
      })
  | inr new ↦
      let c =
        add_mandatory-IsCompleted (q ++ m ∷ []) ms (AreQualified-push q m h (head-eq k))
          (ap tail k) in
      rw new (record {
        accepted = c.accepted;
        qualified = c.qualified;
        kept = λ x e. c.kept x (includes-push x m q e);
        all = (c.kept m (includes-push_self m q), c.all);
      })
]

add_mandatory-strict : (q ms : List String) → AllIn ms q → add_mandatory false q ms ≡ (none, q)
unfolding add_mandatory
add_mandatory-strict q [] h = refl
add_mandatory-strict q (m ∷ ms) (h, hs) = rw h (add_mandatory-strict q ms hs)

mandatory-AreQualified : AreQualified mandatory_protected_collections
unfolding qualify
mandatory-AreQualified = refl

-- The list that the loop leaves.
completed : Items → List String
completed xs =
    (add_mandatory true (map qualify (strings (items_list xs))) mandatory_protected_collections).1

completed_lem :
    (xs : Items)
    → IsCompleted mandatory_protected_collections
        (map qualify (strings (items_list xs)))
        (add_mandatory true (map qualify (strings (items_list xs))) mandatory_protected_collections)
completed_lem xs =
    add_mandatory-IsCompleted (map qualify (strings (items_list xs)))
      mandatory_protected_collections (map-qualify-AreQualified (strings (items_list xs)))
      mandatory-AreQualified

check_protected-normal :
    (c : Fields) (xs : Items)
    → all_strings (items_list xs) ≡ true
    → check_protected c true (arr xs)
      ≡ (none, put "protectedCollections" (of_strings (completed xs)) c)
unfolding check_protected check_protected_list completed
check_protected-normal c xs texts = rw (texts, (completed_lem xs).accepted) refl

check_protected-strict :
    (c : Fields) (q : List String)
    → AreQualified q
    → AllIn mandatory_protected_collections q
    → check_protected c false (of_strings q) ≡ (none, c)
unfolding check_protected check_protected_list of_strings
check_protected-strict c q h all =
    rw
      (
        all_strings-string_items q,
        strings-string_items q,
        h,
        add_mandatory-strict q mandatory_protected_collections all,
      )
      refl

-- If a config states its protected collections as a list of texts, normalising accepts the list and
-- sets the key, and no other, to a list of qualified names with both mandatory collections in it; the
-- strict check accepts the result and leaves it alone.
pub check_protected_normalizes :
    (c : Fields) (xs : Items) (k : String)
    → lookup "protectedCollections" c ≡ arr xs
    → all_strings (items_list xs) ≡ true
    → let (problem, c') = check_protected c true (lookup "protectedCollections" c) in
      (q : List String) × (problem ≡ none)
      × (lookup k c' ≡ (if str_eq "protectedCollections" k then of_strings q else lookup k c))
      × AreQualified q
      × AllIn mandatory_protected_collections q
      × (check_protected c' false (lookup "protectedCollections" c') ≡ (none, c'))
unfolding completed
check_protected_normalizes c xs k e texts =
    let r = completed_lem xs in
    let set = λ (j : String). lookup-put j "protectedCollections" (of_strings (completed xs)) c in
    rw (e, check_protected-normal c xs texts)
      (
        completed xs,
        refl,
        set k,
        r.qualified,
        r.all,
        rw (set "protectedCollections") (check_protected-strict _ (completed xs) r.qualified r.all),
      )
