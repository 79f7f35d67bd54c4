-- ===== src/Bridge.antt =====
-- Voice bridges: their enrollment, approval, request signatures and revocation.
pub mod Store
pub mod Crypto
pub mod Auth
pub mod Enroll
pub mod Registrations
pub mod Service
mod Tests
