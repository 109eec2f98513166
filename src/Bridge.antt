-- ===== src/Bridge.antt =====
-- internal/bridge: the outbound nodes, the round-robin render, and the transitions
-- between Single and Bridge mode. The parts are the child modules.
pub mod Node
pub mod Rotation
pub mod Host
pub mod Plan
pub mod Switch
