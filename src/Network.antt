-- ===== src/Network.antt =====
-- The ISO 8583 server and the test client (network/).
pub mod Stats
pub mod Mti
pub mod Field123
pub mod Response
pub mod Frame
pub mod Conn
pub mod Targets
pub mod Pacing
pub mod Load
pub mod Refund
pub mod Clients
pub mod Admission
pub mod Client
pub mod Listener
