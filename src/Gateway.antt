-- ===== src/Gateway.antt =====
-- apps/api-gateway: the routing of a request, its identity, the rate limit, and the pipeline that
-- joins them. Paths are lists of code units.
pub mod Routes
pub mod Segments
pub mod RateLimit
pub mod Window
pub mod Limit
pub mod Log
pub mod RetryAfter
pub mod Pipeline
pub mod Admission
pub mod Answer
pub mod Retry
pub mod Dashboard
mod Examples
