-- ===== src/Dhcp.antt =====
-- The DHCP server (src/dhcp).
pub mod Declined
pub mod Mac
pub mod Leases
pub mod ClientName
pub mod Server
pub mod Examples
pub mod AllowedList
