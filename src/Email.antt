-- ===== src/Email.antt =====
-- internal/email: the message, its errors, the sender policy, and the parsing of a submission.
pub mod Errors
pub mod Message
pub mod Policy
pub mod Recipients
pub mod Parse
