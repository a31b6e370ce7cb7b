-- ===== src/Provider/Described.antt =====
-- The types that are announced, those that are handled and those that the registry describes are the
-- same, and each description is of the factory that is made (internal/provider.go).
use mathlib.Core.List.{Memᴰ}
use workflow_plugin_signal.Base.{
  ◌≡◌, refl, sym, subst, ◌↔◌, inl, inr, Option, none, some, List, ◌++◌, map, arith, Str, str_eq,
  Dict, lookup, Distinct, Result, ok, or_fail,
}
use workflow_plugin_signal.Provider.Factories.{
  handler_output, StepFactory, ModuleFactory, Error, not_handled, module_factories, step_factories,
  session_factories, service_factories, service_test_factories, store_factories,
  create_typed_module, create_typed_step,
}
use workflow_plugin_signal.Provider.Contracts.{
  signal_module_types, signal_step_types, ContractDescriptor, module_contract, step_contract, pkg,
  contract_registry,
}
use workflow_plugin_signal.Provider.Tables.{
  keys, lookup-keys, keys-lookup, lookup-mem, mem-lookup, mem-map, map-mem, distinct,
  distinct-Distinct,
}
use workflow_plugin_signal.Base.{mem-right, append-mem}

-- What the registry has to say of a factory.
unfoldable pub describe_module : Str × ModuleFactory → ContractDescriptor
describe_module (name, f) = module_contract name (pkg f.config_message)

unfoldable pub describe_step : Str × StepFactory → ContractDescriptor
describe_step (name, f) =
    step_contract name (pkg f.config_message) (pkg f.input_message) (pkg (handler_output f.handler))

announced_modules : keys module_factories ≡ signal_module_types
unfolding keys module_factories signal_module_types
announced_modules = refl

announced_steps : keys step_factories ≡ signal_step_types
unfolding keys step_factories session_factories service_factories service_test_factories
    store_factories signal_step_types
announced_steps = refl

described :
    contract_registry ≡ map describe_module module_factories ++ map describe_step step_factories
unfolding contract_registry describe_module describe_step handler_output module_factories
    step_factories session_factories service_factories service_test_factories store_factories
described = refl

modules-Distinct : Distinct module_factories
unfolding module_factories lookup str_eq distinct
modules-Distinct = distinct-Distinct module_factories refl

steps-Distinct : Distinct step_factories
unfolding step_factories session_factories service_factories service_test_factories store_factories
    lookup str_eq distinct
steps-Distinct = distinct-Distinct step_factories refl

or_fail-found :
    {V : Type 0} (o : Option V) (e : Error) (v : V)
    → ◌≡◌ {A = Result Error V} (or_fail o e) (ok v)
    → o ≡ some v
or_fail-found none e v f = absurd (ground arith)
or_fail-found (some w) e v f = cc

announced :
    {V : Type 0} (name : Str) (m : Dict V) (types : List Str)
    → keys m ≡ types
    → Memᴰ name types
      ↔ ((v : V) × (◌≡◌ {A = Result Error V} (or_fail (lookup name m) (not_handled name)) (ok v)))
announced name m types e = (
  λ i. let (v, found) = lookup-keys name m (subst (Memᴰ name) (sym e) i) in (v, rw found refl),
  λ (v, made). subst (Memᴰ name) e (keys-lookup name v m (or_fail-found _ _ v made)),
)

descriptor_parts :
    (name config input output : Str) (key : Str) (f : StepFactory)
    → step_contract name config input output ≡ describe_step (key, f)
    → (key ≡ name)
      × ((config ≡ pkg f.config_message)
          × (input ≡ pkg f.input_message)
          × (output ≡ pkg (handler_output f.handler)))
unfolding step_contract describe_step
descriptor_parts name config input output key f e = (cc, (cc, cc, cc))

described_step :
    (name config input output : Str)
    → Memᴰ (step_contract name config input output) (map describe_step step_factories)
    → (f : StepFactory) × (create_typed_step name ≡ ok f)
      × ((config ≡ pkg f.config_message)
          × (input ≡ pkg f.input_message)
          × (output ≡ pkg (handler_output f.handler)))
unfolding create_typed_step
described_step name config input output i =
    let ((key, f), entry, e) = map-mem describe_step _ step_factories i in
    let (same, parts) = descriptor_parts name config input output key f e in
    let found : lookup name step_factories ≡ some f =
      rw (sym same) (mem-lookup key f step_factories steps-Distinct entry) in
    (f, rw found refl, parts)

no_module :
    (name config input output : Str) (modules : Dict ModuleFactory)
    → Memᴰ (step_contract name config input output) (map describe_module modules)
    → ⊥
unfolding step_contract describe_module module_contract
no_module name config input output modules i =
    let (entry, j, e) = map-mem describe_module _ modules i in cc

step_described :
    (name : Str) (f : StepFactory)
    → create_typed_step name ≡ ok f
    → Memᴰ (describe_step (name, f)) contract_registry
unfolding create_typed_step
step_described name f made =
    let found : lookup name step_factories ≡ some f = or_fail-found _ _ f made in
    subst (Memᴰ (describe_step (name, f))) (sym described) (
      mem-right _ (map describe_module module_factories) _
        (mem-map describe_step _ step_factories (lookup-mem name f step_factories found)))

-- A type of module is announced exactly when a factory is made for it, and so is a type of step.
pub create_typed-announced :
    (name : Str)
    → (Memᴰ name signal_module_types ↔ ((f : ModuleFactory) × (create_typed_module name ≡ ok f)))
      × (Memᴰ name signal_step_types ↔ ((f : StepFactory) × (create_typed_step name ≡ ok f)))
unfolding create_typed_module create_typed_step
create_typed-announced name = (
  announced name module_factories signal_module_types announced_modules,
  announced name step_factories signal_step_types announced_steps,
)

-- The registry describes a step exactly when a factory is made for its type, and then by the
-- configuration and the input of that factory and by what its handler returns.
pub contract_registry-step :
    (name config input output : Str)
    → Memᴰ (step_contract name config input output) contract_registry ↔ (
        (f : StepFactory) × (create_typed_step name ≡ ok f)
        × ((config ≡ pkg f.config_message)
            × (input ≡ pkg f.input_message)
            × (output ≡ pkg (handler_output f.handler))))
unfolding step_contract describe_step
contract_registry-step name config input output = (
  λ i. elim (append-mem _ (map describe_module module_factories) _ (subst (Memᴰ _) described i)) [
    | inl of_module ↦ absurd (no_module name config input output module_factories of_module)
    | inr of_step ↦ described_step name config input output of_step
  ],
  λ (f, made, (c, i, o)). rw (c, i, o) (step_described name f made),
)
