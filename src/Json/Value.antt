-- ===== src/Json/Value.antt =====
-- JSON values. An object keeps its keys in the order of their insertion.
use openfederation_pds.Base.{
  Bool, true, false, not, Option, none, some, List, [], ◌∷◌, String, str_eq, if◌then◌else◌,
}
use openfederation_pds.Json.Number.{Num, num_truthy}

mutual
  pub data Json : Type 0 where
    undefined null : Json
    bool : Bool → Json
    num : Num → Json
    str : String → Json
    arr : Items → Json
    obj : Fields → Json

  pub data Items : Type 0 where
    nil : Items
    cons : Json → Items → Items

  pub data Fields : Type 0 where
    end : Fields
    field : String → Json → Fields → Fields

-- The value of a key, `undefined` if there is none.
unfoldable pub lookup : String → Fields → Json
lookup k end = undefined
lookup k (field j v fs) = if str_eq j k then v else lookup k fs

-- `v?.k` for a key that no primitive value and no array has.
unfoldable pub get : String → Json → Json
unfolding lookup
get k (obj fs) = lookup k fs
get k undefined = undefined
get k null = undefined
get k (bool b) = undefined
get k (num n) = undefined
get k (str s) = undefined
get k (arr xs) = undefined

-- A value as a condition.
unfoldable pub truthy : Json → Bool
unfolding num_truthy
truthy undefined = false
truthy null = false
truthy (bool b) = b
truthy (num n) = num_truthy n
truthy (str s) = not (str_eq s "")
truthy (arr xs) = true
truthy (obj fs) = true

abbrev pub is_undefined : Json → Bool
is_undefined undefined = true
is_undefined _ = false

abbrev pub is_null : Json → Bool
is_null null = true
is_null _ = false

-- `v ?? w`
unfoldable pub coalesce : Json → Json → Json
coalesce undefined w = w
coalesce null w = w
coalesce v w = v

-- The text of a value of type string.
unfoldable pub as_str : Json → Option String
as_str (str s) = some s
as_str _ = none

-- The number of a value of type number.
unfoldable pub as_num : Json → Option Num
as_num (num n) = some n
as_num _ = none

-- `v === s` for a text.
unfoldable pub is_str : Json → String → Bool
is_str (str t) s = str_eq t s
is_str _ s = false

unfoldable pub items_list : Items → List Json
items_list nil = []
items_list (cons v vs) = v ∷ items_list vs

unfoldable pub list_items : List Json → Items
list_items [] = nil
list_items (v ∷ vs) = cons v (list_items vs)

-- `Array.isArray(v) ? v : []`
unfoldable pub as_array : Json → List Json
unfolding items_list
as_array (arr xs) = items_list xs
as_array _ = []

-- The texts of an array: `filter(c => typeof c === 'string')`.
unfoldable pub strings : List Json → List String
strings [] = []
strings (str s ∷ vs) = s ∷ strings vs
strings (_ ∷ vs) = strings vs

unfoldable pub string_items : List String → Items
string_items [] = nil
string_items (s ∷ ss) = cons (str s) (string_items ss)

unfoldable pub of_strings : List String → Json
unfolding string_items
of_strings xs = arr (string_items xs)

-- The object literal of a list of keys and values.
abbrev pub object : List (String × Json) → Fields
object [] = end
object ((k, v) ∷ r) = field k v (object r)
