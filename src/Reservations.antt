-- ===== src/Reservations.antt =====
-- Reservations and activations (src/der_flex/reservations): the records, the in-memory backend and
-- the service.
pub mod Records
pub mod Backend
pub mod Allocate
pub mod Service
