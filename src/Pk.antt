-- ===== src/Pk.antt =====
-- cups-pk-client: administering a print server through the `cups-pk-helper` mechanism.
pub mod Errors
pub mod Device
pub mod Mechanism
pub mod Connect
