-- ===== src/Core.antt =====
-- What the services share: src/core.
pub mod Subnet
pub mod SubnetFilter
pub mod Jobs
