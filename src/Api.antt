-- ===== src/Api.antt =====
-- The HTTP boundary: identities, the privacy policy, and the handlers.
pub mod Security
pub mod Privacy
pub mod Flexibility
pub mod Reservations
pub mod Requests
