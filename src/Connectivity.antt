-- ===== src/Connectivity.antt =====
-- backend/internal/connectivity.
pub mod Telnet
