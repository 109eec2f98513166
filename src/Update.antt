-- ===== src/Update.antt =====
-- internal/update: versions, the choice of a release's asset, its checksum, the checks, and the applier.
pub mod Text
pub mod Versions
pub mod Assets
pub mod Checks
pub mod Apply
