-- ===== src/Registry.antt =====
-- The key registry (meshtastic_things/keyapi/registry): owners, meshes, devices and blueprints, the
-- request handlers of views.py, and the events that they publish to the decoders.
pub mod Models
pub mod Requests
pub mod Publisher
pub mod Access
pub mod Meshes
pub mod Devices
pub mod Owners
pub mod Sightings
pub mod Blueprints
pub mod Catalog
pub mod Alarms
pub mod Logins
pub mod Decoders
pub mod Soundness
pub mod Service
pub mod Privacy
