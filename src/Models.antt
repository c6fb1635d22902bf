-- ===== src/Models.antt =====
-- contracts/models.py: the values that the coordinator, the workers and the clients exchange.
pub mod Enums
pub mod Parameters
pub mod Records
pub mod Equality
pub mod Validation
pub mod TextFields
