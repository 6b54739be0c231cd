-- ===== src/Adapter.antt =====
-- pkg/adapter: from the actions of agents to task graphs.
pub mod Json
pub mod Inputs
pub mod Actions
pub mod Manifest
pub mod Request
pub mod Kinds
pub mod Payload
pub mod Translate
mod Tests
pub mod Schema
