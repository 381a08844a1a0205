-- ===== src/Durable.antt =====
-- The durable backend (src/der_flex/reservations/postgres.py), and the activation over it.
pub mod Tables
pub mod UnitOfWork
pub mod Outbox
pub mod Activate
pub mod Publish
pub mod Steps
pub mod Progress
pub mod Refinement
