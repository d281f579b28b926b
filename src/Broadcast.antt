-- ===== src/Broadcast.antt =====
-- Broadcasts: a message of an administrator to many users, queued in a table and delivered by a
-- loop (backend/internal/store/broadcast.go, backend/internal/broadcast/service.go).
pub mod Types
pub mod Targets
pub mod Identifiers
pub mod Resolve
pub mod Queue
pub mod Service
pub mod Delivery
pub mod Kept
pub mod Tally
pub mod Paging
pub mod Closing
pub mod Reach
pub mod Delivered
pub mod Rows
pub mod Touch
pub mod Worked
pub mod Drain
mod Tests
