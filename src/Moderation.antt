-- ===== src/Moderation.antt =====
-- src/modules/ai: the moderation of listings by jobs, a worker and a workflow.
pub mod Types
pub mod Policy
pub mod Evaluation
pub mod Audit
pub mod Jobs
pub mod Workflow
pub mod Worker
