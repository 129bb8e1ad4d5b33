-- ===== src/Examples.antt =====
-- The theorems at concrete inputs, and the parameters at which their hypotheses hold.
pub mod PlainCore
pub mod Packing
pub mod Reading
pub mod Building
pub mod Tree
pub mod Broker
pub mod Clients
pub mod Loop
pub mod Exchange
pub mod TestClients
