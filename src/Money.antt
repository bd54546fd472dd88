-- ===== src/Money.antt =====
-- platform/money: the components of the money package.
pub mod Error
pub mod Asset
pub mod Amount
pub mod Arith
pub mod Compare
pub mod Format
pub mod Alloc
pub mod Validate
