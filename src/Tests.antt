-- ===== src/Tests.antt =====
-- Concrete runs of the library: sample data, and the theorems at it.
pub mod Sample
pub mod Messages
mod Issuer
mod Connection
mod Server
mod Admission
mod Tables
mod Runs
mod Exchange
mod Stop
mod Starting
mod Figures
