-- ===== src/Quota.antt =====
-- internal/quota/quota.go: per-user traffic quotas, with their calendar, the periods and the
-- service that rolls periods over and suspends users. The parts are the child modules.
pub mod Calendar
pub mod Period
pub mod Service
