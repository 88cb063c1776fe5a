-- ===== src/Json/ValueLaws.antt =====
-- What the tests on values say.
use openfederation_pds.Base.{refl, List, [], ◌∷◌, ◌≡◌, ◌↔◌, true, some, String, eq_iff, ap, arith}
use openfederation_pds.Json.Value.{Json, str, is_str, as_str, items_list, list_items}

pub is_str_iff : (v : Json) (s : String) → (is_str v s ≡ true) ↔ (v ≡ str s)
unfolding is_str
is_str_iff (str t) s = (λ h. ap str ((eq_iff t s).0 h), λ e. ground (arith, eq_iff t s))
is_str_iff v s = (λ h. cc, λ e. cc)

pub eq-str_of_as_str : (v : Json) (s : String) → as_str v ≡ some s → v ≡ str s
unfolding as_str
eq-str_of_as_str (str t) s h = cc
eq-str_of_as_str v s h = cc

pub items_list-list_items : (vs : List Json) → items_list (list_items vs) ≡ vs
unfolding items_list list_items
items_list-list_items [] = refl
items_list-list_items (v ∷ vs) = ap (λ ws. v ∷ ws) (items_list-list_items vs)
