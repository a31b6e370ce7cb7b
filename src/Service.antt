-- ===== src/Service.antt =====
-- The official-service steps: linked-device ceremonies and the preparation of operations
-- (internal/steps_service_operations.go).
pub mod Ceremony
pub mod Prepare
pub mod Steps
pub mod Approval
pub mod Policy
pub mod Requests
pub mod TestSteps
pub mod Contracts
pub mod Transport
mod Tests
