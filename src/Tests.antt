-- ===== src/Tests.antt =====
-- Runs of the modelled functions, and the theorems at concrete data.
pub mod Urls
pub mod Configs
pub mod Workers
pub mod Filters
pub mod Connections
pub mod Escapes
pub mod Queues
pub mod Jobs
pub mod Watches
pub mod Syncs
pub mod Buffers
pub mod Listings
pub mod Logins
pub mod Cfsyncs
pub mod Daemons
pub mod Writers
pub mod Waits
pub mod Starts
pub mod Deliveries
