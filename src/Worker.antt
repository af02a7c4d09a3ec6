-- ===== src/Worker.antt =====
-- app/queue/worker.py: the worker that runs the jobs of the queue.
pub mod Backend
pub mod Prompt
pub mod Ltxv
pub mod Wan
pub mod Steps
pub mod Finish
pub mod Video
pub mod Pipeline
pub mod Row
pub mod Settled
pub mod Stages
pub mod Outputs
pub mod Media
pub mod Completed
pub mod Verdict
pub mod Quiet
pub mod Swap
pub mod Frame
