-- ===== src/ScrubRules.antt =====
-- pkg/scrubrules/scrubrules.go: validation of runtime rules and their layout for the XDP matcher.
pub mod Types
pub mod Ports
pub mod Sources
pub mod Parse
pub mod Flatten
mod Tests
