-- ===== src/Ws.antt =====
-- The package ws/: clients, sessions, routing and publish/subscribe.
pub mod RecentLogs
pub mod Types
pub mod Client
pub mod PubSub
pub mod Session
pub mod Chain
pub mod Router
pub mod Errors
pub mod Params
pub mod Dispatcher
pub mod Languages
pub mod Sending
pub mod Values
pub mod Stack
