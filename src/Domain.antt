-- ===== src/Domain.antt =====
-- The domain of DER Flex (src/der_flex/domain): the data model, the registry of provisioned
-- resources and the store of offers.
pub mod Models
pub mod Equality
pub mod Store
pub mod Resources
