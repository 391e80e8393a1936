-- ===== src/RuleEngine.antt =====
-- pkg/collector/rules.go: the runtime rules of a scrub collector and the kernel slots that they own.
pub mod Kernel
pub mod State
pub mod Install
pub mod Apply
pub mod Slots
pub mod Assigned
pub mod Handover
pub mod Invariant
pub mod Installed
pub mod Run
pub mod Atomic
pub mod Tries
mod Tests
