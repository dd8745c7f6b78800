-- ===== src/Metrics.antt =====
-- The crate metrics: lazily initialised cells, counters, gauges and sketches.
mod Tests
pub mod LazyCell
pub mod Sketch
pub mod Counter
pub mod Gauge
pub mod Registry
