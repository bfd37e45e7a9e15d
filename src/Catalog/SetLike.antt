-- ===== src/Catalog/SetLike.antt =====
-- pkg/catalog/toolfunction.go, w2-set-v1: the set-like fields of a canonical tree in the order of
-- their encodings, and the refusal of a duplicate. encoding/json is a parameter.
use Prim.Native.Nat.{Ordering}
use Prim.Native.String.{compare}
use node_vault.Base.{
  String, Bool, true, false, not, ◌&&◌, Option, none, some, List, [], ◌∷◌, ◌==◌, if◌then◌else◌,
}
use node_vault.Status.{Outcome, ok, fail, invalid_argument, internal, ◌>>=◌}
use node_vault.Catalog.Json.{
  Json, Fields, absent, text, number, flag, array, object, to_items, of_items, as_json, put,
}
use node_vault.Catalog.Messages.{ToolFunctionSpec}
use node_vault.Catalog.Canonical.{canonical_tool_function_spec}

-- `json.Marshal`, `none` when it fails.
abbrev pub Marshal : Type 0
Marshal = Json → Option String

-- `s < t` on bytes, which for the UTF-8 that json.Marshal writes is by characters.
unfoldable pub bytes_ltb : String → String → Bool
bytes_ltb s t = elim (compare s t) [ Ordering.lt ↦ true | _ ↦ false ]

-- An element with its encoding.
pub record Keyed : Type 0 where
  pub enc : String
  pub v : Json

abbrev pub encode : Marshal → Json → Outcome Keyed
encode marshal v = elim (marshal v) [
  | none ↦ fail internal
  | some enc ↦ ok (record { enc = enc; v = v })
]

-- The loop that encodes the elements.
unfoldable pub encode_all : Marshal → List Json → Outcome (List Keyed)
encode_all marshal [] = ok []
encode_all marshal (v ∷ vs) = encode marshal v >>= λ e. encode_all marshal vs >>= λ es. ok (e ∷ es)

-- `sort.Slice` by the encodings, as an insertion sort.
unfoldable pub place : Keyed → List Keyed → List Keyed
unfolding bytes_ltb
place x [] = x ∷ []
place x (y ∷ ys) = if bytes_ltb y.enc x.enc then y ∷ place x ys else x ∷ (y ∷ ys)

unfoldable pub sort_keyed : List Keyed → List Keyed
sort_keyed [] = []
sort_keyed (x ∷ xs) = place x (sort_keyed xs)

-- The encoding before is another one.
abbrev pub differs_from_next : Keyed → List Keyed → Bool
differs_from_next x [] = true
differs_from_next x (y ∷ ys) = not (x.enc == y.enc)

-- The loop that compares each element with the one before.
unfoldable pub no_duplicate : List Keyed → Bool
no_duplicate [] = true
no_duplicate (x ∷ xs) = differs_from_next x xs && no_duplicate xs

abbrev pub values : List Keyed → List Json
values [] = []
values (x ∷ xs) = x.v ∷ values xs

abbrev pub distinct : List Keyed → Outcome (List Json)
distinct xs = if no_duplicate xs then ok (values xs) else fail invalid_argument

unfoldable pub sort_canonical_set : Marshal → List Json → Outcome (List Json)
sort_canonical_set marshal vs = encode_all marshal vs >>= λ es. distinct (sort_keyed es)

-- What becomes of the value of a key: a new value, or `none` when the value is left as it is.
abbrev pub Change : Type 0
Change = Json → Outcome (Option Json)

abbrev pub write_back : String → Fields → Option Json → Outcome Fields
write_back k m none = ok m
write_back k m (some v) = ok (put k v m)

unfoldable pub change_key : String → Change → Fields → Outcome Fields
change_key k f m = f (m.at k) >>= write_back k m

abbrev pub sorted_array : Marshal → Change
sorted_array marshal (array xs) =
    sort_canonical_set marshal (of_items xs) >>= λ ys. ok (some (array (to_items ys)))
sorted_array marshal absent = ok none
sorted_array marshal (text s) = ok none
sorted_array marshal (number n) = ok none
sorted_array marshal (flag b) = ok none
sorted_array marshal (object keys at) = ok none

-- `sortCanonicalSetIn`
unfoldable pub sort_canonical_set_in : Marshal → String → Fields → Outcome Fields
unfolding change_key
sort_canonical_set_in marshal k m = change_key k (sorted_array marshal) m

-- What happens in a nested map, which the source changes in place.
abbrev pub in_object : (Fields → Outcome Fields) → Change
in_object f (object keys at) = f (record { keys = keys; at = at }) >>= λ m. ok (some (as_json m))
in_object f absent = ok none
in_object f (text s) = ok none
in_object f (number n) = ok none
in_object f (flag b) = ok none
in_object f (array xs) = ok none

abbrev pub unless_changed : Json → Option Json → Json
unless_changed v none = v
unless_changed v (some w) = w

-- The loop over the ports of a list.
unfoldable pub sort_each : Change → List Json → Outcome (List Json)
sort_each f [] = ok []
sort_each f (v ∷ vs) = f v >>= λ w. sort_each f vs >>= λ ws. ok (unless_changed v w ∷ ws)

abbrev pub in_elements : Change → Change
in_elements f (array xs) = sort_each f (of_items xs) >>= λ ys. ok (some (array (to_items ys)))
in_elements f absent = ok none
in_elements f (text s) = ok none
in_elements f (number n) = ok none
in_elements f (flag b) = ok none
in_elements f (object keys at) = ok none

unfoldable pub sort_command : Marshal → Fields → Outcome Fields
unfolding sort_canonical_set_in
sort_command marshal m =
    sort_canonical_set_in marshal "environment" m
    >>= sort_canonical_set_in marshal "success_exit_codes"

unfoldable pub sort_exec_env : Marshal → Fields → Outcome Fields
unfolding sort_canonical_set_in
sort_exec_env marshal m =
    sort_canonical_set_in marshal "writable_paths" m
    >>= sort_canonical_set_in marshal "required_capabilities"

abbrev pub sort_companions : Marshal → Change
sort_companions marshal = in_elements (in_object (sort_canonical_set_in marshal "companion_files"))

-- The changes of `canonicalToolFunctionSpecV1`, in their order.
unfoldable pub v1_changes : Marshal → List (String × Change)
unfolding sort_command sort_exec_env
v1_changes marshal =
    ("command", in_object (sort_command marshal))
    ∷ (("inputs", sort_companions marshal)
        ∷ (("inputs", sorted_array marshal)
            ∷ (("outputs", sort_companions marshal)
                ∷ (("outputs", sorted_array marshal)
                    ∷ (("parameters", sorted_array marshal)
                        ∷ (("intermediate_file_policies", sorted_array marshal)
                            ∷ (("execution_environment", in_object (sort_exec_env marshal))
                                ∷ [])))))))

unfoldable pub change_all : List (String × Change) → Fields → Outcome Fields
unfolding change_key
change_all [] m = ok m
change_all ((k, f) ∷ rest) m = change_key k f m >>= change_all rest

-- `canonicalToolFunctionSpecV1`
unfoldable pub canonical_tool_function_spec_v1 : Marshal → ToolFunctionSpec → Outcome Fields
unfolding canonical_tool_function_spec v1_changes change_all
canonical_tool_function_spec_v1 marshal spec =
    change_all (v1_changes marshal) (canonical_tool_function_spec spec)
