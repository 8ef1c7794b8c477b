-- ===== src/Env.antt =====
-- What the program takes from outside the repository: float64, Redis and JSON, as interfaces.
pub mod Float
pub mod Random
pub mod Redis
pub mod Codec
pub mod Heap
