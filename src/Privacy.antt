-- ===== src/Privacy.antt =====
-- internal/privacy: the policy on outbound context, and the firewall that enforces it.
pub mod Bytes
pub mod Policy
pub mod Classifier
pub mod Pseudonymizer
pub mod Redactor
pub mod Firewall
pub mod Service
pub mod Restart
pub mod Tokens
pub mod Blocking
pub mod Tests
pub mod Runs
