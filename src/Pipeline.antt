-- ===== src/Pipeline.antt =====
-- The pipelines of sovereignflow: their definition (domain/models.py), the validator and the
-- engine (application/pipeline.py) and the actions (application/actions).
pub mod Definition
pub mod Registry
pub mod Transition
pub mod Reached
pub mod Validator
pub mod Context
pub mod Actions
pub mod Run
pub mod Diagnostics
pub mod Engine
