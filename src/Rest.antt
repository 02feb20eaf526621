-- ===== src/Rest.antt =====
-- wallet/src/controllers/rest: what stands between a request and its handler.
pub mod Errors
pub mod Dto
pub mod Pipe
pub mod Bodies
pub mod Filter
pub mod Guard
pub mod Access
pub mod Routes
pub mod Nest
pub mod Interceptor
pub mod Server
