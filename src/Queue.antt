-- ===== src/Queue.antt =====
-- The queue service: internal/queue and svc_queue.go of cmd/morsel-ctrl-plane.
pub mod Tables
pub mod Files
pub mod Local
pub mod Listing
pub mod Service
pub mod Delivery
pub mod Quota
pub mod Claims
pub mod Moves
pub mod Refinement
pub mod History
pub mod Accounting
pub mod Keys
pub mod Balance
pub mod Leaks
pub mod Receipt
pub mod Acked
pub mod Deletion
pub mod Isolation
mod Examples
mod ServiceExamples
