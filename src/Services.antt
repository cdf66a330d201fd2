-- ===== src/Services.antt =====
-- Backend/src/services: the business logic over the repository, the cache and the model service.
pub mod HealthGate
pub mod RefreshTokens
pub mod EventHub
pub mod RateLimiter
pub mod Generation
pub mod Redis
pub mod TaskEngine
pub mod Auth
pub mod CacheClient
pub mod Yields
pub mod Effects
pub mod CacheKeys
pub mod Ports
pub mod Validation
pub mod ImageService
pub mod Wiring
mod Samples
mod Tests
