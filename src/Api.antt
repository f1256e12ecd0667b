-- ===== src/Api.antt =====
-- Package `internal/api`: the handlers over a store, the routes and the middleware.
pub mod Http
pub mod Jobs
pub mod Agents
pub mod Assignment
pub mod Server
pub mod Middleware
