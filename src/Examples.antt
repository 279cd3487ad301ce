-- ===== src/Examples.antt =====
-- The theorems at concrete inputs, and tests of the definitions, for the code under server/internal.
pub mod Runs
pub mod Logs
pub mod Layouts
pub mod Stores
pub mod Queues
pub mod Children
pub mod Manifests
pub mod Reports
pub mod Uploads
pub mod Drains
pub mod Requests
pub mod Startups
pub mod Ids
