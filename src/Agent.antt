-- ===== src/Agent.antt =====
-- One turn of the agent: runtime/agent of addons/odoo_ai_assistant.
pub mod Budgets
pub mod Business
pub mod Transcript
pub mod TaskPlan
pub mod Accounting
pub mod Host
pub mod Service
pub mod Proposal
pub mod Loop
mod Returns
mod Failures
mod Ordered
mod Tests
pub mod Calls
mod Keeps
mod Quiet
mod Once
mod Pays
mod Spending
pub mod Restart
mod Runs
