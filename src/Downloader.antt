-- ===== src/Downloader.antt =====
-- backend/worker_downloader/downloader.go: the worker that fetches videos and their metadata.
pub mod RateLimiter
pub mod Sessions
pub mod Retry
mod Tests
