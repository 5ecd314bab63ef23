-- ===== src/Sync.antt =====
-- The captures a team makes without a connection: the queue that keeps them, and the engine that
-- sends them (frontend/src/core/projection/offlineStore.ts and syncEngine.ts).
pub mod OfflineStore
pub mod SyncEngine
