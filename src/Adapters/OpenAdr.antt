-- ===== src/Adapters/OpenAdr.antt =====
-- The OpenADR adapter (src/der_flex/adapters/openadr).
pub mod Duration
pub mod Models
pub mod Handler
pub mod Report
