-- ===== src/Panel.antt =====
-- internal/panel: the users and nodes as the panel changes them, and the handlers of its buttons.
pub mod Users
pub mod Apply
pub mod Actions
pub mod Batches
pub mod Outcome
pub mod Nodes
