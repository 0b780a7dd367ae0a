-- ===== src/S3.antt =====
-- The S3 layer (backend/src/s3).
pub mod Query
pub mod Uri
pub mod Names
pub mod Base64
pub mod Encoded
pub mod Buckets
pub mod Operation
pub mod Router
pub mod Range
pub mod Errors
pub mod Text
pub mod Sigv4
pub mod Chunked
pub mod Cors
mod Tests
