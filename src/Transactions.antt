-- ===== src/Transactions.antt =====
-- internal/pkg/transactionmanager: a function that runs in a transaction.
pub mod Manager
