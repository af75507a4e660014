-- ===== src/SelfUpdate.antt =====
-- packages/control-plane/src/adapters/self-update: replacing the running program by a newer release.
pub mod Versions
pub mod Ordering
pub mod Sums
pub mod Replacing
pub mod Restoring
pub mod Updating
pub mod Tests
