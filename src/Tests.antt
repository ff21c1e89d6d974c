-- ===== src/Tests.antt =====
-- Runs of the model on concrete inputs, and each theorem at an input that meets its hypotheses.
mod Records
mod Samples
mod Table
mod Requests
mod Runs
mod Access
mod Demo
mod Sources
mod Webhooks
