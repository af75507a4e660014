-- ===== src/Claude.antt =====
-- packages/control-plane/src/adapters/clients/claude and application/claude-launch.ts: launching
-- Claude Code with a stable configuration.
pub mod Capability
pub mod Manifest
pub mod AdapterPlan
pub mod World
pub mod Delivery
pub mod Launch
pub mod Preparing
pub mod Tests
