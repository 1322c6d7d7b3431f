-- ===== src/Schemas.antt =====
-- packages/schemas: the canonical contracts that the other packages share.
pub mod Lifecycle
pub mod Money
pub mod Grade
pub mod Common
pub mod Intent
pub mod PolicyContract
