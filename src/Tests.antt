-- ===== src/Tests.antt =====
-- Runs of the model on concrete inputs, and the theorems at inputs that meet their hypotheses.
mod Pools
mod Queues
mod Histories
mod Messages
mod Logs
mod Systems
mod Supervisors
mod Rounds
mod Creations
mod Schedules
mod Sendings
