-- ===== src/Provider/Tests.antt =====
-- The tables at concrete types.
use mathlib.Core.List.{Memᴰ}
use workflow_plugin_signal.Base.{◌≡◌, ◌↔◌, lit, ok}
use workflow_plugin_signal.Provider.Factories.{
  StepFactory, ModuleFactory, create_typed_module, create_typed_step, handler_output,
}
use workflow_plugin_signal.Provider.Contracts.{
  signal_module_types, signal_step_types, step_contract, pkg, contract_registry,
}
use workflow_plugin_signal.Provider.Described.{create_typed-announced, contract_registry-step}

create_typed-announced_example :
    (Memᴰ (lit "signal.space") signal_module_types
      ↔ ((f : ModuleFactory) × (create_typed_module (lit "signal.space") ≡ ok f)))
    × (Memᴰ (lit "signal.space") signal_step_types
        ↔ ((f : StepFactory) × (create_typed_step (lit "signal.space") ≡ ok f)))
create_typed-announced_example = create_typed-announced (lit "signal.space")

contract_registry-step_example :
    Memᴰ (step_contract (lit "step.signal_encrypt") (lit "a") (lit "b") (lit "c")) contract_registry
    ↔ ((f : StepFactory) × (create_typed_step (lit "step.signal_encrypt") ≡ ok f)
        × ((lit "a" ≡ pkg f.config_message)
            × (lit "b" ≡ pkg f.input_message)
            × (lit "c" ≡ pkg (handler_output f.handler))))
contract_registry-step_example =
    contract_registry-step (lit "step.signal_encrypt") (lit "a") (lit "b") (lit "c")
