-- ===== src/Middleware.antt =====
-- pkg/middleware: rate limits, request logging, CORS and the client's address.
pub mod RateLimit
pub mod Logging
pub mod Cors
