-- ===== src/Quality.antt =====
-- The quality worker (meshtastic_things/quality_worker) and the detectors of the stream jobs: derived
-- series, completeness, and the decisions to raise an alarm.
pub mod Alignment
pub mod Steps
pub mod Completeness
pub mod Detectors
pub mod Tasks
