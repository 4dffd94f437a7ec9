-- ===== src/Transaction.antt =====
-- The data of planetmint/transactions/common: transaction.py, input.py, output.py and
-- transaction_link.py.
pub mod Link
pub mod Conditions
pub mod Model
pub mod Serialize
pub mod Build
