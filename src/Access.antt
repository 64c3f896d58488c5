-- ===== src/Access.antt =====
-- internal/biz/accesskey and internal/biz/accesspolicy: data-plane credentials and their policies.
pub mod Bytes
pub mod Base64
pub mod Key
pub mod Secret
pub mod Issue
pub mod Laws
pub mod RoundTrip
pub mod Service
pub mod Operations
pub mod Check
pub mod Issued
pub mod Stored
pub mod Verified
pub mod Admission
pub mod Decision
pub mod Acceptance
pub mod Pages
