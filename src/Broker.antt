-- ===== src/Broker.antt =====
-- internal/broker: the store that it keeps in Redis, its Lua scripts and its methods.
pub mod Keys
pub mod Store
pub mod Scripts
pub mod Cases
pub mod Guard
pub mod Loop
pub mod Order
pub mod Room
