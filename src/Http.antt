-- ===== src/Http.antt =====
-- The HTTP framework: HttpServer/HTTP.
pub mod Buffer
pub mod Request
pub mod Context
pub mod Response
pub mod Handler
pub mod Router
pub mod Middleware
pub mod Cors
pub mod Server
pub mod Session
pub mod Tls
pub mod DbPool
mod Tests
