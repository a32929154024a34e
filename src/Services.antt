-- ===== src/Services.antt =====
-- backend/internal/services.
pub mod CsWait
pub mod WireGuard
pub mod Events
pub mod ZteRegister
pub mod PollJob
pub mod JobState
pub mod Jobs
pub mod OnuId
