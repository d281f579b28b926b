-- ===== src/Users.antt =====
-- The users as an administrator sees and restricts them: backend/internal/store/store.go, and the
-- handlers of a ban, its end and a kick in backend/internal/httpapi/handler.go.
pub mod Types
pub mod Store
pub mod Pages
pub mod Sessions
pub mod Moderation
pub mod Degraded
pub mod CutOff
pub mod FullyOut
pub mod Restricted
pub mod Barred
pub mod Banned
pub mod Tests
