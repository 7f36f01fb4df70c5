-- ===== src/Pairing.antt =====
-- src/pairing: onboarding.
pub mod Provisioning
pub mod Service
