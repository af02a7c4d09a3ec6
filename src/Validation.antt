-- ===== src/Validation.antt =====
-- app/validation.py: the requests, what they are resolved against, and the checks that turn a
-- request into a job. A refusal keeps the error code and which check it was, not the message.
pub mod Request
pub mod Inversion
pub mod Frames
pub mod Size
pub mod Webhook
pub mod Loras
pub mod Image
pub mod Video
