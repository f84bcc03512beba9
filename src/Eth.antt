-- ===== src/Eth.antt =====
-- pkg/api/eth: the services behind the `eth` namespace.
pub mod State
pub mod Blocks
pub mod Gas
pub mod Submit
pub mod Transactions
