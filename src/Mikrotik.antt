-- ===== src/Mikrotik.antt =====
-- backend/internal/mikrotik: reading routers over the RouterOS API.
pub mod Wire
