-- ===== src/Sync.antt =====
-- internal/sync: of the client and the server of a sync, the check-in locks.
pub mod CkinLock
