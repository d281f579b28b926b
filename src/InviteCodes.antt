-- ===== src/InviteCodes.antt =====
-- The invite codes of the sign-up: backend/internal/invitecodes/service.go. A method runs commands of
-- a key-value store, each of which may fail, so it is a function of a `World` as in Sql.
pub mod Types
pub mod Service
pub mod Hash
pub mod Invariant
pub mod Created
pub mod Tests
