-- ===== src/S3.antt =====
-- The package s3.
pub mod Bucket
pub mod Client
