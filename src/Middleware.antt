-- ===== src/Middleware.antt =====
-- backend/internal/middleware: what stands before the handlers.
pub mod RateLimit
