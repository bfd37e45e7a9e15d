-- ===== src/Index.antt =====
-- pkg/index: the artifact index, the one file that records what the platform has approved.
pub mod Schema
pub mod Errors
pub mod Sections
pub mod Entries
pub mod Requests
pub mod Records
pub mod Builds
pub mod Certified
pub mod Functions
pub mod Samples
pub mod Disk
pub mod Save
