-- ===== src/Storage.antt =====
-- pkg/storage: the readers of the chain's data in Pika, a Redis-compatible store.
pub mod Pika
pub mod Blocks
pub mod Accounts
pub mod Transactions
pub mod TxPool
pub mod Client
