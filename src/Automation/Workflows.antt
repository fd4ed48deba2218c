-- ===== src/Automation/Workflows.antt =====
-- packages/automation/src/memovi_automation: workflows of several capability steps, and their
-- execution.
pub mod References
pub mod Definitions
pub mod Substitution
pub mod Validator
pub mod Resolution
pub mod Binding
pub mod Validated
pub mod Run
pub mod Steps
pub mod Loop
pub mod Execute
pub mod Runs
pub mod Planned
pub mod Finished
pub mod Executed
pub mod Trial
pub mod Examples
