-- ===== src/Tests.antt =====
-- Concrete runs: for each theorem with hypotheses, an input at which they hold.
mod Data
mod Access
mod Policy
mod PolicyChange
mod Safety
mod Home
mod Config
mod Storage
mod Ssh
mod Hosts
mod Accounts
mod Errors
mod Profile
mod Privilege
