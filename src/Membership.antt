-- ===== src/Membership.antt =====
-- internal/membership: committees, their log, membership requests and quorum certificates.
pub mod Committee
pub mod ConfigStore
pub mod Request
pub mod Quorum
