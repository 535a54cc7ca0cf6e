-- ===== src/Transfer.antt =====
-- backend/worker_transfer/transfer.go: the worker that copies files between object stores.
pub mod Timeout
pub mod Parts
pub mod Copy
pub mod Retry
pub mod Process
pub mod Slots
pub mod Adaptive
pub mod Scanner
mod Tests
