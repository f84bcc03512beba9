-- ===== src/Api.antt =====
-- pkg/api: the errors, block numbers and results that the RPC methods share.
pub mod Error
pub mod BlockNumber
pub mod RpcTypes
pub mod TxPool
