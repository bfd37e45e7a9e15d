-- ===== src/Catalog/Arguments.antt =====
-- pkg/catalog/toolfunction.go, validateArgumentReferences against what it means to accept: every
-- argument by itself, and every parameter consumed.
use node_vault.Base.{
  ◌≡◌, refl, String, Bool, true, false, not, ◌&&◌, ◌||◌, none, some, List, [], ◌∷◌, ◌==◌,
  if◌then◌else◌, arith, inl, inr, Option-cases,
}
use node_vault.Status.{Outcome, ok, fail, invalid_argument, ◌>>◌}
use node_vault.Catalog.Json.{has_key}
use node_vault.Catalog.Messages.{ToolFunctionSpec}
use node_vault.Catalog.Validate.{
  Text, refuse_when, consume_arguments, all_consumed, validate_argument_references, parameter_names,
  arguments_of,
}

abbrev pub all_of : (String → Bool) → List String → Bool
all_of p [] = true
all_of p (x ∷ xs) = p x && all_of p xs

abbrev pub any_of : (String → Bool) → List String → Bool
any_of p [] = false
any_of p (x ∷ xs) = p x || any_of p xs

-- A literal that holds no attempt at a reference, or a whole reference to a declared parameter.
unfoldable pub is_accepted : Text → List String → String → Bool
is_accepted t declared arg = elim (t.argument_reference arg) [
  | none ↦ not (t.argument_reference_like arg)
  | some reference ↦ reference.0 == "param" && has_key reference.1 declared
]

-- The argument refers to the name.
unfoldable pub refers : Text → String → String → Bool
refers t name arg = elim (t.argument_reference arg) [
  | none ↦ false
  | some reference ↦ reference.1 == name
]

-- The names consumed by the loop.
abbrev referred : Text → List String → List String → List String
referred t consumed [] = consumed
referred t consumed (arg ∷ args) = elim (t.argument_reference arg) [
  | none ↦ referred t consumed args
  | some reference ↦ referred t (reference.1 ∷ consumed) args
]

refuse-or :
    {A : Type 0} (b : Bool) (o : Outcome A)
    → (refuse_when b >> o) ≡ (if b then fail invalid_argument else o)
refuse-or true o = refl
refuse-or false o = refl

consume_arguments_lem :
    (t : Text) (declared consumed args : List String)
    → consume_arguments t declared consumed args ≡ (
        if all_of (is_accepted t declared) args
        then ok (referred t consumed args)
        else fail invalid_argument)
unfolding consume_arguments is_accepted
consume_arguments_lem t declared consumed [] = refl
consume_arguments_lem t declared consumed (arg ∷ args) =
    elim (Option-cases (t.argument_reference arg)) [
      | inl e ↦ ground (e, arith, consume_arguments_lem t declared consumed args)
      | inr (reference, e) ↦
          ground (e, arith, consume_arguments_lem t declared (reference.1 ∷ consumed) args)
    ]

referred_lem :
    (t : Text) (name : String) (consumed args : List String)
    → has_key name (referred t consumed args)
      ≡ (any_of (refers t name) args || has_key name consumed)
unfolding refers
referred_lem t name consumed [] = refl
referred_lem t name consumed (arg ∷ args) = elim (Option-cases (t.argument_reference arg)) [
  | inl e ↦ ground (e, arith, referred_lem t name consumed args)
  | inr (reference, e) ↦ ground (e, arith, referred_lem t name (reference.1 ∷ consumed) args)
]

all_consumed_lem :
    (t : Text) (args names : List String)
    → all_consumed (referred t [] args) names
      ≡ refuse_when (not (all_of (λ name. any_of (refers t name) args) names))
unfolding all_consumed
all_consumed_lem t args [] = refl
all_consumed_lem t args (name ∷ names) =
    ground (arith, referred_lem t name [] args, all_consumed_lem t args names)

-- The arguments and parameters of a declaration are accepted exactly when every argument is a literal
-- without an attempt at a reference or a whole reference to a declared parameter, and every declared
-- parameter is referred to by an argument; everything else is refused as an invalid argument.
pub validate_argument_references_lem :
    (t : Text) (spec : ToolFunctionSpec)
    → validate_argument_references t spec
      ≡ refuse_when (
          not (
            all_of (is_accepted t (parameter_names spec.parameters)) (arguments_of spec)
            && all_of
                (λ name. any_of (refers t name) (arguments_of spec))
                (parameter_names spec.parameters)))
unfolding validate_argument_references
validate_argument_references_lem t spec = ground (
  arith,
  consume_arguments_lem t (parameter_names spec.parameters) [] (arguments_of spec),
  all_consumed_lem t (arguments_of spec) (parameter_names spec.parameters),
)
