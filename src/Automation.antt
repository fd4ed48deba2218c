-- ===== src/Automation.antt =====
-- packages/automation/src/memovi_automation: capabilities and their execution under permission
-- policies, and plans of several steps.
pub mod Values
pub mod Arguments
pub mod Authorization
pub mod Invoker
pub mod Engine
pub mod Submission
pub mod Operations
pub mod Administration
pub mod Histories
pub mod Store
pub mod Codec
pub mod Durable
pub mod Plans
pub mod Workflows
pub mod Examples
pub mod Trials
