-- ===== src/Resolve/Examples.antt =====
-- Literals of the kind of a raw_spec, and a provenance pair that is half populated.
use node_vault.Base.{◌≡◌, refl, ℤ, negsuc, String, false, Option, none, some, ◌==◌, if◌then◌else◌}
use node_vault.Resolve.{effective_provenance, schema_build_v1}
use node_vault.Resolve.KindNumber.{Literal, read_literal, json_number_equals_two}
use node_vault.Resolve.IntegerTwo.{IsTwo, json_number_equals_two-IsTwo}

abbrev minus_one : String → Option ℤ
minus_one s = if s == "-1" then some (negsuc 0) else none

half_populated : effective_provenance schema_build_v1 "" ≡ none
unfolding effective_provenance
half_populated = refl

nearly_two : json_number_equals_two minus_one "2.0000000000000001" ≡ false
unfolding json_number_equals_two
nearly_two = refl

json_number_equals_two-IsTwo_example :
    (l : Literal) × (read_literal minus_one "20e-1" ≡ some l) × IsTwo l
unfolding json_number_equals_two
json_number_equals_two-IsTwo_example = json_number_equals_two-IsTwo minus_one "20e-1" refl
