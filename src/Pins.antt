-- ===== src/Pins.antt =====
-- backend/src/kor_travel_docker_manager/services/runtime_pin_registry.py. `Entries` has the audit
-- entries, `Registry` the validated registry and its block list, `Document` the strict parser,
-- `Rotation` the operations that build the next registry, `Files` and `Store` the files on disk.
pub mod Entries
pub mod Registry
pub mod Document
pub mod Rotation
pub mod Files
pub mod Store
