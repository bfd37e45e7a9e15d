-- ===== src/Catalog/Identity.antt =====
-- pkg/catalog/toolfunction.go, deriveToolFunction: what the identities and the request basis depend
-- on.
use node_vault.Base.{◌≡◌, refl, sym, ap, ◌∙◌, String, false, Option, none, some, ◌==◌}
use node_vault.Status.{Outcome, ok, fail, answer, ◌>>=◌}
use node_vault.Catalog.Messages.{ToolFunctionSpec, RegisterToolFunctionRequest}
use node_vault.Catalog.Validate.{legacy_order_v0}
use node_vault.Catalog.Derive.{
  Encoding, derive_tool_function, derive_from, canonical_tool_function_spec_for,
}
use node_vault.Catalog.Reordered.{Reordered, canonical_tool_function_spec_v1-Reordered}

-- What follows, on the answer.
abbrev next : {A B : Type 0} → (A → Outcome B) → Option A → Option B
next f none = none
next f (some a) = answer (f a)

answer_lem :
    {A B : Type 0} (o : Outcome A) (f : A → Outcome B) → answer (o >>= f) ≡ next f (answer o)
answer_lem (ok a) f = refl
answer_lem (fail c) f = refl

-- Under w2-set-v1, the order in which a declaration lists its environment entries, exit codes, ports,
-- companion files, parameters, intermediate file policies, writable paths and capabilities does not
-- matter: two declarations that differ only in it derive the same digests, presentation revision,
-- fingerprint and request basis, or neither derives any.
pub derive_tool_function-Reordered :
    (g : Encoding) (version base image : String) (req : RegisterToolFunctionRequest)
    (s t : ToolFunctionSpec)
    → (version == legacy_order_v0) ≡ false
    → Reordered s t
    → answer (derive_tool_function g version base image req s)
      ≡ answer (derive_tool_function g version base image req t)
unfolding derive_tool_function canonical_tool_function_spec_for
derive_tool_function-Reordered g version base image req s t h r =
    answer_lem (canonical_tool_function_spec_for g version s) (derive_from g version base image req)
    ∙ ap (next (derive_from g version base image req))
        (rw h (canonical_tool_function_spec_v1-Reordered g.marshal r))
    ∙ sym (
        answer_lem (canonical_tool_function_spec_for g version t)
          (derive_from g version base image req))
