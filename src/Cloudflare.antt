-- ===== src/Cloudflare.antt =====
-- internal/cloudflare: the outbound adapters, their classification of failures and their retry loop.
pub mod Classify
pub mod Backoff
pub mod Loop
pub mod Payload
pub mod Wire
pub mod Rest
pub mod Worker
pub mod Contract
