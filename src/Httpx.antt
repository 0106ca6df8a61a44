-- ===== src/Httpx.antt =====
-- internal/httpx: what the middlewares decide.
pub mod RateLimit
pub mod Reply
pub mod Leaves
