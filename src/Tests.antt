-- ===== src/Tests.antt =====
-- Concrete inputs, and each result of the library applied to one.
mod Quotas
mod Logins
mod Scrapes
mod Bridges
mod Panels
mod Updates
mod Sessions
mod Forms
mod Hosts
mod Nodes
mod Updating
