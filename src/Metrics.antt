-- ===== src/Metrics.antt =====
-- internal/metrics: the sampler that turns cumulative counters into traffic rows, the operational
-- counters, and the retention job. The parts are the child modules.
pub mod Sampler
pub mod Ops
pub mod Series
pub mod Retention
