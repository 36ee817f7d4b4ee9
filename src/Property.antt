-- ===== src/Property.antt =====
-- src/entity/mtp_property.c: the PTP array and the PTP string, and the properties built on them.
pub mod PtpArray
pub mod PtpString
pub mod Value
pub mod Desc
pub mod Interdep
pub mod Defaults
