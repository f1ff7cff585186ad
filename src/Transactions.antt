-- ===== src/Transactions.antt =====
-- Transactions of a Glue catalog and the metadata they resolve (src/catalog/glue_transaction.cpp,
-- src/catalog/glue_transaction_manager.cpp, src/include/catalog/glue_transaction.hpp).
pub mod Rollback
pub mod Manager
pub mod Retired
pub mod Valid
pub mod Dropped
pub mod Entries
pub mod Metadata
pub mod Cached
pub mod Cleared
pub mod Attached
pub mod Invalidated
