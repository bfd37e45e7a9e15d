-- ===== src/Catalog/Differences.antt =====
-- pkg/catalog/toolfunction.go, canonicalToolFunctionSpec: a difference in one field of a declaration,
-- carried through the rest of the canonical tree.
use mathlib.Core.List.{Permᴰ}
use node_vault.Base.{
  ◌≡◌, refl, ap, String, false, Option, none, some, List, [], ◌∷◌, ◌++◌, ◌==◌, map,
}
use node_vault.Catalog.Json.{Json, Fields, put, put_list, empty_map}
use node_vault.Catalog.Messages.{
  ToolFunctionSpec, FunctionPortSpec, ExecutionEnvironmentSpec, TimeoutPolicy,
}
use node_vault.Catalog.Canonical.{
  canonical_port, port_head, put_exec_env, put_timeout, canonical_ports, canonical_parameter,
  canonical_intermediate_policy, put_command,
}
use node_vault.Catalog.Agreement.{SameSet, Apart, Apart-put}
use node_vault.Catalog.Shuffled.{Nested, OneElement}
use node_vault.Catalog.Builders.{
  Apart-put_str, Apart-put_list, Apart-start, Apart-put_same, texts-Perm,
}
use node_vault.Catalog.Settle.{Inside, Shuffle}

pub Apart-put_exec_env :
    (P : Json → Json → Type 0) (k : String) (ee : Option ExecutionEnvironmentSpec) (m n : Fields)
    → ("execution_environment" == k) ≡ false
    → Apart k P m n
    → Apart k P (put_exec_env ee m) (put_exec_env ee n)
Apart-put_exec_env P k none m n h a = a
Apart-put_exec_env P k (some ee) m n h a = Apart-put P k "execution_environment" _ m n h a

pub Apart-put_timeout :
    (k : String) (tp : Option TimeoutPolicy) (m n : Fields)
    → ("timeout_policy" == k) ≡ false
    → Shuffle k m n
    → Shuffle k (put_timeout tp m) (put_timeout tp n)
Apart-put_timeout k none m n h a = a
Apart-put_timeout k (some tp) m n h a = Apart-put SameSet k "timeout_policy" _ m n h a

-- What the tree puts after the policies, the parameters, the outputs, the inputs and the command.
-- (The names of the keys are compared where the lemmas are applied.)
abbrev pub after_parameters : ToolFunctionSpec → Fields → Fields
after_parameters s m = put_exec_env s.execution_environment (
    put_list "intermediate_file_policies"
      (map canonical_intermediate_policy s.intermediate_file_policies) m)

abbrev pub after_outputs : ToolFunctionSpec → Fields → Fields
after_outputs s m =
    after_parameters s (put_list "parameters" (map canonical_parameter s.parameters) m)

abbrev pub after_inputs : ToolFunctionSpec → Fields → Fields
after_inputs s m = after_outputs s (put_list "outputs" (canonical_ports s.outputs) m)

abbrev pub after_command : ToolFunctionSpec → Fields → Fields
after_command s m = after_inputs s (put_list "inputs" (canonical_ports s.inputs) m)

abbrev pub before_exec_env : ToolFunctionSpec → Fields
before_exec_env s =
    put_list "intermediate_file_policies"
      (map canonical_intermediate_policy s.intermediate_file_policies)
      (put_list "parameters" (map canonical_parameter s.parameters) (
        put_list "outputs" (canonical_ports s.outputs)
          (put_list "inputs" (canonical_ports s.inputs) (put_command s.command empty_map))))

module _ (P : Json → Json → Type 0) (k : String) (s : ToolFunctionSpec) where
  pub Apart-after_parameters :
      (m n : Fields)
      → ("execution_environment" == k) ≡ false
      → ("intermediate_file_policies" == k) ≡ false
      → Apart k P m n
      → Apart k P (after_parameters s m) (after_parameters s n)
  Apart-after_parameters m n e f a =
      Apart-put_exec_env P k s.execution_environment _ _ e (Apart-put_list P k _ f m n _ a)

  pub Apart-after_outputs :
      (m n : Fields)
      → ("execution_environment" == k) ≡ false
      → ("intermediate_file_policies" == k) ≡ false
      → ("parameters" == k) ≡ false
      → Apart k P m n
      → Apart k P (after_outputs s m) (after_outputs s n)
  Apart-after_outputs m n e f g a = Apart-after_parameters _ _ e f (Apart-put_list P k _ g m n _ a)

  pub Apart-after_inputs :
      (m n : Fields)
      → ("execution_environment" == k) ≡ false
      → ("intermediate_file_policies" == k) ≡ false
      → ("parameters" == k) ≡ false
      → ("outputs" == k) ≡ false
      → Apart k P m n
      → Apart k P (after_inputs s m) (after_inputs s n)
  Apart-after_inputs m n e f g h a = Apart-after_outputs _ _ e f g (Apart-put_list P k _ h m n _ a)

pub Apart-after_command :
    (P : Json → Json → Type 0) (s : ToolFunctionSpec) (v w : Json)
    → P v w
    → Apart "command" P
        (after_command s (put "command" v empty_map))
        (after_command s (put "command" w empty_map))
Apart-after_command P s v w p =
    Apart-after_inputs P "command" s _ _ refl refl refl refl
      (Apart-put_list P "command" "inputs" refl _ _ _ (Apart-put_same P "command" v w empty_map p))

one_element :
    (key : String) (m : Fields) (before after : List Json) (v w : Json)
    → Inside "companion_files" v w
    → Apart key
        (OneElement (Inside "companion_files"))
        (put_list key (before ++ v ∷ after) m)
        (put_list key (before ++ w ∷ after) m)
one_element key m [] after v w p = Apart-put_same _ key _ _ m (OneElement.one [] after p)
one_element key m (x ∷ before) after v w p =
    Apart-put_same _ key _ _ m (OneElement.one (x ∷ before) after p)

ports-append :
    (before : List FunctionPortSpec) (p : FunctionPortSpec) (after : List FunctionPortSpec)
    → canonical_ports (before ++ p ∷ after)
      ≡ canonical_ports before ++ canonical_port p ∷ canonical_ports after
ports-append [] p after = refl
ports-append (b ∷ before) p after = ap (λ l. canonical_port b ∷ l) (ports-append before p after)

-- One list of ports, in which one port has its companion files in another order.
pub one_port :
    (key : String) (m : Fields) (before after : List FunctionPortSpec) (p : FunctionPortSpec)
    (fs : List String)
    → Permᴰ p.companion_files fs
    → Apart key
        (OneElement (Inside "companion_files"))
        (put_list key (canonical_ports (before ++ p ∷ after)) m)
        (put_list key (canonical_ports (before ++ record p { companion_files = fs } ∷ after)) m)
unfolding canonical_port
one_port key m before after p fs d =
    rw (ports-append before p after, ports-append before q after)
      (one_element key m (canonical_ports before) (canonical_ports after) _ _ (
        Nested.nested _ _ (
          Apart-put_str SameSet "companion_files" "completion_check" refl _ _ p.completion_check
            (Apart-start "companion_files" (port_head p) _ _ (texts-Perm d)))))
  where
    q : FunctionPortSpec
    q = record p { companion_files = fs }
