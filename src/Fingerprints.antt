-- ===== src/Fingerprints.antt =====
-- The scrub fingerprints of a collector: pkg/collector/ebpf/fingerprint.go and pkg/collector/fingerprint.go, with
-- the counting of pkg/collector/ebpf/c/protector.bpf.c.
pub mod Types
pub mod Kernel
pub mod Flip
pub mod Counted
pub mod Drained
pub mod Conserved
pub mod Run
pub mod Top
pub mod Grouped
pub mod Trimmed
pub mod Selected
mod Tests
