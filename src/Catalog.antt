-- ===== src/Catalog.antt =====
-- pkg/catalog/toolfunction.go, RegisterToolFunction: the messages, the canonical trees and their
-- digests, the checks of a declaration, and the registration over the index.
pub mod Json
pub mod Messages
pub mod Canonical
pub mod SetLike
pub mod Ordering
pub mod Distinct
pub mod Agreement
pub mod Shuffled
pub mod Builders
pub mod Settle
pub mod Validate
pub mod Derive
pub mod Register
pub mod Arguments
pub mod Identity
pub mod Gates
pub mod SortedSet
mod Examples
mod Calls
pub mod Differences
pub mod Reordered
