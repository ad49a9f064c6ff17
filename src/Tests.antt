-- ===== src/Tests.antt =====
-- Runs of the model on concrete inputs, and the theorems applied to them.
mod World
mod Reports
mod Queries
mod Sync
mod Limits
mod Requests
mod Life
mod Lives
mod Answers
mod Beside
mod Binding
mod Served
mod Routing
mod Start
