-- ===== src/Audit.antt =====
-- app/audit/store.py: audit records on their way from a bounded queue to the database in batches.
pub mod Store
pub mod Order
pub mod Query
pub mod Sorting
pub mod Pages
pub mod Memory
pub mod Tests
