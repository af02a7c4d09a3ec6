-- ===== src/Webhooks.antt =====
-- app/webhooks: the retry schedule, the signature, the policy on hosts, and the dispatcher.
pub mod Retry
pub mod Policy
pub mod Payload
pub mod Dispatcher
