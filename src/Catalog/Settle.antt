-- ===== src/Catalog/Settle.antt =====
-- pkg/catalog/toolfunction.go, canonicalToolFunctionSpecV1: which change settles a difference in the
-- order of a set-like field, and where such a difference stands in the canonical tree.
use mathlib.Core.Path.{subst}
use node_vault.Base.{◌≡◌, refl, String, false, List, ◌∷◌, ◌==◌}
use node_vault.Status.{◌>>=◌}
use node_vault.Catalog.Json.{Json, Fields}
use node_vault.Catalog.SetLike.{
  Marshal, Change, change_key, v1_changes, sorted_array, in_object, sort_command, sort_exec_env,
  sort_canonical_set_in,
}
use node_vault.Catalog.Agreement.{
  Both, SameSet, Takes, Apart, Settles, Both-bind, Both-refl, Settles-later, Settles-refined,
  Settles-now, change_key-settles, change_key-off,
}
use node_vault.Catalog.Shuffled.{
  Nested, OneElement, sorted_array-Takes, in_object-Takes, in_elements-shuffled, in_elements-one,
}

-- Maps apart in the order of the array at `k`, and such a map nested in another.
abbrev pub Shuffle : String → Fields → Fields → Type 0
Shuffle k = Apart k SameSet

abbrev pub Inside : String → Json → Json → Type 0
Inside k = Nested (Shuffle k)

-- The first of two sorts of a nested map settles its key, or the second one does.
two_sorts :
    (marshal : Marshal) (j k : String) (m n : Fields)
    → Shuffle j m n
    → Both ◌≡◌
        (change_key j (sorted_array marshal) m >>= change_key k (sorted_array marshal))
        (change_key j (sorted_array marshal) n >>= change_key k (sorted_array marshal))
two_sorts marshal j k m n a =
    Both-bind
      (change_key-settles SameSet j (sorted_array marshal) m n (sorted_array-Takes marshal) a)
      (λ x y e.
        subst
          (λ z.
            Both ◌≡◌ (change_key k (sorted_array marshal) x)
              (change_key k (sorted_array marshal) z))
          e (Both-refl _ (λ r. refl)))

second_sort :
    (marshal : Marshal) (j k : String) (m n : Fields)
    → (k == j) ≡ false
    → (j == k) ≡ false
    → Shuffle k m n
    → Both ◌≡◌
        (change_key j (sorted_array marshal) m >>= change_key k (sorted_array marshal))
        (change_key j (sorted_array marshal) n >>= change_key k (sorted_array marshal))
second_sort marshal j k m n h g a =
    Both-bind (change_key-off SameSet k j (sorted_array marshal) m n h g a) (λ x y b.
      change_key-settles SameSet k (sorted_array marshal) x y (sorted_array-Takes marshal) b)

module _ (marshal : Marshal) where
  pub environment-Settles : Settles "command" (Inside "environment") (v1_changes marshal)
  unfolding v1_changes sort_command sort_canonical_set_in
  environment-Settles = Settles-now _ _ _ _ (
      in_object-Takes (Shuffle "environment") _
        (λ m n a. two_sorts marshal "environment" "success_exit_codes" m n a))

  pub success_exit_codes-Settles :
      Settles "command" (Inside "success_exit_codes") (v1_changes marshal)
  unfolding v1_changes sort_command sort_canonical_set_in
  success_exit_codes-Settles = Settles-now _ _ _ _ (
      in_object-Takes (Shuffle "success_exit_codes") _
        (λ m n a. second_sort marshal "environment" "success_exit_codes" m n refl refl a))

  -- The two changes of a list of ports.
  companions-Takes :
      Takes
        (Inside "companion_files")
        ◌≡◌
        (in_object (sort_canonical_set_in marshal "companion_files"))
  unfolding sort_canonical_set_in
  companions-Takes =
      in_object-Takes (Shuffle "companion_files") _
        (λ m n a. change_key-settles SameSet _ _ m n (sorted_array-Takes marshal) a)

  pub inputs-Settles : Settles "inputs" SameSet (v1_changes marshal)
  unfolding v1_changes
  inputs-Settles = Settles-later SameSet _ _ _ _ refl refl (
      Settles-refined SameSet SameSet _ _ _ (in_elements-shuffled _)
        (Settles-now SameSet _ _ _ (sorted_array-Takes marshal)))

  pub input_companion_files-Settles :
      Settles "inputs" (OneElement (Inside "companion_files")) (v1_changes marshal)
  unfolding v1_changes
  input_companion_files-Settles =
      Settles-later _ _ _ _ _ refl refl
        (Settles-now _ _ _ _ (in_elements-one (Inside "companion_files") _ companions-Takes))

  -- The changes of `command` and `inputs` are over.
  past_inputs :
      (P : Json → Json → Type 0) (k : String) (f g h : Change) (cs : List (String × Change))
      → (k == "command") ≡ false
      → ("command" == k) ≡ false
      → (k == "inputs") ≡ false
      → ("inputs" == k) ≡ false
      → Settles k P cs
      → Settles k P (("command", f) ∷ (("inputs", g) ∷ (("inputs", h) ∷ cs)))
  past_inputs P k f g h cs a b c d s =
      Settles-later P _ _ _ _ a b (Settles-later P _ _ _ _ c d (Settles-later P _ _ _ _ c d s))

  pub outputs-Settles : Settles "outputs" SameSet (v1_changes marshal)
  unfolding v1_changes
  outputs-Settles = past_inputs SameSet _ _ _ _ _ refl refl refl refl (
      Settles-refined SameSet SameSet _ _ _ (in_elements-shuffled _)
        (Settles-now SameSet _ _ _ (sorted_array-Takes marshal)))

  pub output_companion_files-Settles :
      Settles "outputs" (OneElement (Inside "companion_files")) (v1_changes marshal)
  unfolding v1_changes
  output_companion_files-Settles =
      past_inputs _ _ _ _ _ _ refl refl refl refl
        (Settles-now _ _ _ _ (in_elements-one (Inside "companion_files") _ companions-Takes))

  -- So are those of `outputs`.
  past_outputs :
      (P : Json → Json → Type 0) (k : String) (f g h i j : Change) (cs : List (String × Change))
      → (k == "command") ≡ false
      → ("command" == k) ≡ false
      → (k == "inputs") ≡ false
      → ("inputs" == k) ≡ false
      → (k == "outputs") ≡ false
      → ("outputs" == k) ≡ false
      → Settles k P cs
      → Settles k P (
          ("command", f)
          ∷ (("inputs", g) ∷ (("inputs", h) ∷ (("outputs", i) ∷ (("outputs", j) ∷ cs)))))
  past_outputs P k f g h i j cs a b c d x y s =
      past_inputs P k f g h _ a b c d (Settles-later P _ _ _ _ x y (Settles-later P _ _ _ _ x y s))

  pub parameters-Settles : Settles "parameters" SameSet (v1_changes marshal)
  unfolding v1_changes
  parameters-Settles =
      past_outputs SameSet _ _ _ _ _ _ _ refl refl refl refl refl refl
        (Settles-now SameSet _ _ _ (sorted_array-Takes marshal))

  pub intermediate_file_policies-Settles :
      Settles "intermediate_file_policies" SameSet (v1_changes marshal)
  unfolding v1_changes
  intermediate_file_policies-Settles =
      past_outputs SameSet _ _ _ _ _ _ _ refl refl refl refl refl refl (
        Settles-later SameSet _ _ _ _ refl refl
          (Settles-now SameSet _ _ _ (sorted_array-Takes marshal)))

  -- `execution_environment` is changed last.
  last_change :
      (P : Json → Json → Type 0)
      → Takes P ◌≡◌ (in_object (sort_exec_env marshal))
      → Settles "execution_environment" P (v1_changes marshal)
  unfolding v1_changes
  last_change P t = past_outputs P _ _ _ _ _ _ _ refl refl refl refl refl refl (
      Settles-later P _ _ _ _ refl refl (Settles-later P _ _ _ _ refl refl (Settles-now P _ _ _ t)))

  pub writable_paths-Settles :
      Settles "execution_environment" (Inside "writable_paths") (v1_changes marshal)
  unfolding sort_exec_env sort_canonical_set_in
  writable_paths-Settles = last_change _ (
      in_object-Takes (Shuffle "writable_paths") _
        (λ m n a. two_sorts marshal "writable_paths" "required_capabilities" m n a))

  pub required_capabilities-Settles :
      Settles "execution_environment" (Inside "required_capabilities") (v1_changes marshal)
  unfolding sort_exec_env sort_canonical_set_in
  required_capabilities-Settles = last_change _ (
      in_object-Takes (Shuffle "required_capabilities") _
        (λ m n a. second_sort marshal "writable_paths" "required_capabilities" m n refl refl a))
