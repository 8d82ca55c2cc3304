-- ===== src/Security.antt =====
-- backend/app/security: the errors of the outbound gateway, the address policy, the retry policy and
-- the gateway itself.
pub mod Errors
pub mod Network
pub mod RateLimit
pub mod Gateway
pub mod Seeding
pub mod Targets
pub mod Origins
pub mod Redaction
pub mod RateLimiter
