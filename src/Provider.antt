-- ===== src/Provider.antt =====
-- internal/provider.go: the module and step types of the plugin, which factory each of them gets, and
-- the registry that describes them to the host. A switch on a text is a table that is searched. The
-- factories are the host's; a message stands for the Go type that the generated code names so.
mod Factories
mod Contracts
mod Tables
mod Described
mod Tests
pub use Factories.{
  Handler, handler_output, StepFactory, ModuleFactory, create_typed_step, create_typed_module,
}
pub use Contracts.{signal_module_types, signal_step_types, ContractDescriptor, contract_registry}
