-- ===== src/Smtp.antt =====
-- internal/smtpserver: the submission server that go-smtp drives.
pub mod Login
pub mod Session
pub mod Calls
pub mod Audience
pub mod Options
pub mod Server
