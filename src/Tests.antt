-- ===== src/Tests.antt =====
-- Examples: each theorem of the results that has hypotheses or arguments, at concrete values.
pub mod Samples
pub mod Queue
pub mod Webhook
pub mod Request
pub mod Workflow
pub mod Wan
pub mod Pipeline
pub mod Eviction
pub mod Access
pub mod Names
pub mod Fetch
