-- ===== src/Adapter.antt =====
-- adapters/local-anvil: the broadcast of a signed transaction and its execution under a lock.
pub mod World
pub mod Attempts
pub mod Broadcast
pub mod Execution
pub mod Rows
pub mod Sends
pub mod Once
pub mod Runs
mod Tests
