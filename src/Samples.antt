-- ===== src/Samples.antt =====
-- Concrete worlds and configurations, and runs of the theorems on them.
mod World
mod Infrastructure
mod TaskRunner
mod Validation
mod DnsRecord
mod Worker
mod Admission
mod Bastion
mod Backup
mod Entries
