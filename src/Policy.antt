-- ===== src/Policy.antt =====
-- packages/policy-engine/src/index.ts: the deterministic policy engine.
pub mod Atomic
pub mod Rules
pub mod Engine
