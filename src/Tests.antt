-- ===== src/Tests.antt =====
-- Concrete runs of the model, and a witness for each theorem with a hypothesis.
pub mod Toy
pub mod Blocks
pub mod Elections
pub mod Details
pub mod Stored
mod Schemas
mod Exchanges
mod Pools
mod Caches
mod Connections
mod Posts
mod Configs
pub mod Signatures
mod Approvals
mod Workers
mod Roots
