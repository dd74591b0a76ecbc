-- ===== src/StateTransfer.antt =====
-- internal/statetransfer: the committed history, and its transfer to a replica that joins.
pub mod History
pub mod Syncer
