-- ===== src/Workflows.antt =====
-- app/registry/workflows.py: ComfyUI graphs, the anchors in their titles, and what is injected into
-- them before a job is submitted.
pub mod Graph
pub mod Anchors
pub mod Sources
pub mod Kept
pub mod Ltxv
pub mod Weights
pub mod Wan
pub mod Advanced
pub mod Required
pub mod Loras
