-- ===== src/Custody.antt =====
-- Custody: the sealed store of internal/custody, its audit log, the steps over it
-- (internal/custody_steps.go) and the modules that configure it (internal/custody.go).
mod Framing
pub mod Sealed
pub mod Audit
pub mod Modules
pub mod Persistent
pub mod Stores
pub mod Steps
mod Tests
