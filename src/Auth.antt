-- ===== src/Auth.antt =====
-- internal/auth: signed sessions, the device login, stored credentials and their locks.
pub mod Signer
pub mod Session
pub mod Credentials
pub mod DeviceStates
pub mod Login
pub mod LeaseLocker
