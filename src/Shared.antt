-- ===== src/Shared.antt =====
-- The helpers of wallet/src/lib: exceptions, version control, times and pagination.
pub mod Exception
pub mod ConcurrencyControl
pub mod Pagination
pub mod DateTime
