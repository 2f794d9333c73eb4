-- ===== src/Drop.antt =====
-- The encrypted drops: server/app/services/drop.py, drop_destruction.py and extract_cooldown.py.
pub mod Rows
pub mod State
pub mod Actions
pub mod Update
pub mod Cooldown
pub mod Destruction
pub mod Services
pub mod Requests
pub mod Create
pub mod Lookup
pub mod Unseal
pub mod Extract
pub mod Delivery
pub mod Samples
mod Tests
