-- ===== src/Adapters.antt =====
-- The adapters to devices and receivers (src/der_flex/adapters).
pub mod Dispatch
pub mod Webhooks
pub mod OpenAdr
pub mod Pebc
