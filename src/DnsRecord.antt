-- ===== src/DnsRecord.antt =====
-- pkg/controller/dnsrecord: the controller of DNS records.
pub mod Letters
pub mod Name
pub mod Zone
pub mod Actuator
pub mod Written
