-- ===== src/Tests.antt =====
-- Concrete inputs, at which the theorems of the library are applied.
mod Fixtures
mod Mail
mod Sending
mod Edge
mod Connection
mod Startup
mod Servers
mod Problems
