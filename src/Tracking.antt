-- ===== src/Tracking.antt =====
-- packages/tracking, modules/tracking and packages/tracking-client: the state of a stream of
-- locations, what of a batch is stored, and what a device keeps until it is sent.
pub mod Session
pub mod Admission
pub mod State
pub mod Sampling
pub mod Queue
pub mod Collector
mod Examples
mod CollectorExamples
