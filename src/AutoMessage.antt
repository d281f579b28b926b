-- ===== src/AutoMessage.antt =====
-- Automatic group messages: backend/internal/store/auto_messages.go and
-- backend/internal/automessage/service.go. `Types`, `Tables`, `Store` and `Service` model the code;
-- the other modules prove what they are named for.
pub mod Types
pub mod Tables
pub mod Queries
pub mod Store
pub mod Edit
pub mod Process
pub mod Validate
pub mod Service
pub mod Scheduler
pub mod Invariant
pub mod Preserve
pub mod History
pub mod Due
pub mod Denied
mod Tests
