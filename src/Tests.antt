-- ===== src/Tests.antt =====
-- Runs of the model on concrete inputs, and the theorems at concrete inputs.
mod Data
mod Config
mod Requests
mod Storage
mod Servers
mod Tasks
mod Keeping
mod Services
mod Turns
mod Resets
mod Failing
mod Clients
mod Limits
mod Programs
