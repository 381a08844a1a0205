-- ===== src/Examples.antt =====
-- Concrete runs: the theorems at small inputs, by part of the program.
pub mod Data
pub mod Reservations
pub mod Publication
pub mod Effects
pub mod Tenants
pub mod Durable
pub mod Refinement
pub mod OpenAdr
pub mod Pebc
pub mod Requests
