-- ===== src/Server.antt =====
-- pkg/server: the JSON-RPC handler, its HTTP and WebSocket fronts, and subscriptions.
pub mod Json
pub mod Request
pub mod Methods
pub mod Handler
pub mod Connection
pub mod Subscription
pub mod Notify
pub mod Listen
pub mod Threads
pub mod Session
pub mod Http
pub mod Admission
