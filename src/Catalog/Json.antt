-- ===== src/Catalog/Json.antt =====
-- pkg/catalog/toolfunction.go: the `any` values of a canonical tree, its maps, and the builders that
-- leave out what is unset.
use node_vault.Base.{
  ℤ, pos, negsuc, String, Bool, false, ◌||◌, List, [], ◌∷◌, ◌==◌, is_empty, is_zero, snoc,
  if◌then◌else◌,
}

-- `absent` is the nil that a map answers for a key that it does not have. A `map[string]any` is its
-- keys, in the order of their first write, and what it answers.
mutual
  pub data Json : Type 0 where
    absent : Json
    text : String → Json
    number : ℤ → Json
    flag : Bool → Json
    array : Items → Json
    object : List String → (String → Json) → Json

  pub data Items : Type 0 where
    nil : Items
    item : Json → Items → Items

unfoldable pub to_items : List Json → Items
to_items [] = nil
to_items (x ∷ xs) = item x (to_items xs)

unfoldable pub of_items : Items → List Json
of_items nil = []
of_items (item x xs) = x ∷ of_items xs

-- A `map[string]any` under construction.
pub record Fields : Type 0 where
  pub keys : List String
  pub at : String → Json

abbrev pub empty_map : Fields
empty_map = record { keys = []; at = λ _. absent }

abbrev pub as_json : Fields → Json
as_json m = object m.keys m.at

abbrev pub has_key : String → List String → Bool
has_key k [] = false
has_key k (x ∷ xs) = x == k || has_key k xs

-- `m[k] = v`
abbrev pub put : String → Json → Fields → Fields
put k v m = record {
  keys = if has_key k m.keys then m.keys else snoc m.keys k;
  at = λ j. if k == j then v else m.at j;
}

abbrev pub put_str : String → String → Fields → Fields
put_str k v m = if is_empty v then m else put k (text v) m

abbrev pub is_zero_int : ℤ → Bool
is_zero_int (pos n) = is_zero n
is_zero_int (negsuc n) = false

abbrev pub put_int : String → ℤ → Fields → Fields
put_int k v m = if is_zero_int v then m else put k (number v) m

abbrev pub put_bool : String → Bool → Fields → Fields
put_bool k v m = if v then put k (flag v) m else m

abbrev pub put_list : String → List Json → Fields → Fields
put_list k [] m = m
put_list k (v ∷ vs) m = put k (array (to_items (v ∷ vs))) m

abbrev pub texts : List String → List Json
texts [] = []
texts (s ∷ ss) = text s ∷ texts ss

abbrev pub put_str_list : String → List String → Fields → Fields
put_str_list k vs m = put_list k (texts vs) m

abbrev pub put_msg : String → Bool → Fields → Fields → Fields
put_msg k present v m = if present then put k (as_json v) m else m
